-- ===== src/Shell/Complete.antt =====
-- The completion of application names in src/user/apps/shell/main.c. A name is the list of its bytes
-- before the NUL.
pub mod Token
use aqua_core.Prelude.{
  ℕ, zero, suc, ◌+◌, ◌-◌, min, Bool, true, ◌&&◌, ◌||◌, List, [], ◌∷◌, ltb, leb, ◌==◌, if◌then◌else◌,
  update, get_or, length, take,
}
use aqua_core.Shell.{cmdline_max}
use aqua_core.Shell.Apps.{shell_app_names}
use aqua_core.Shell.Args.{is_blank}
use aqua_core.Shell.Arrays.{move_up, move_down}

-- A command line in its array.
pub record Line : Type 0 where
  pub cmdline : ℕ → ℕ
  pub len : ℕ
  pub cursor : ℕ

-- The loop from i on, with n bytes to len.
unfoldable pub first_token_end : (ℕ → ℕ) → ℕ → ℕ → ℕ
first_token_end s zero i = i
first_token_end s (suc n) i =
    let rest = first_token_end s n (i + 1) in if is_blank (s i) then i else rest

unfoldable pub common_prefix_len : List ℕ → List ℕ → ℕ
common_prefix_len [] b = 0
common_prefix_len (x ∷ a) [] = 0
common_prefix_len (x ∷ a) (y ∷ b) = if x == y then suc (common_prefix_len a b) else 0

-- The bytes of a token, from the index i on.
unfoldable pub put_token : (ℕ → ℕ) → ℕ → List ℕ → ℕ → ℕ
put_token a i [] = a
put_token a i (c ∷ s) = put_token (update a i c) (i + 1) s

unfoldable pub replace_first_token : Line → ℕ → List ℕ → Line
replace_first_token l old_token_len new_token =
    let new_token_len = length new_token in
    let new_len = new_token_len + (l.len - old_token_len) in
    let moved =
      if ltb old_token_len new_token_len
      then move_up l.cmdline old_token_len (new_token_len - old_token_len)
          (l.len + 1 - old_token_len)
      else if ltb new_token_len old_token_len
      then move_down l.cmdline new_token_len (old_token_len - new_token_len)
          (l.len + 1 - old_token_len)
      else l.cmdline in
    if leb cmdline_max new_len then l else record {
      cmdline = update (put_token moved 0 new_token) new_len 0;
      len = new_len;
      cursor = new_token_len;
    }

-- The loop over the prefix, from j on with n bytes to come; a name has its NUL at its end.
unfoldable pub has_prefix : (ℕ → ℕ) → List ℕ → ℕ → ℕ → Bool
has_prefix cmdline name j zero = true
has_prefix cmdline name j (suc n) =
    get_or name j 0 == cmdline j && has_prefix cmdline name (j + 1) n

-- The names that match, in their order.
unfoldable pub matches : (ℕ → ℕ) → ℕ → List (List ℕ) → List (List ℕ)
matches cmdline prefix_len [] = []
matches cmdline prefix_len (name ∷ names) =
    let rest = matches cmdline prefix_len names in
    if has_prefix cmdline name 0 prefix_len then name ∷ rest else rest

-- The loop for `lcp`.
unfoldable pub shared_len : List ℕ → ℕ → List (List ℕ) → ℕ
shared_len first lcp [] = lcp
shared_len first lcp (name ∷ names) =
    shared_len first (min lcp (common_prefix_len first name)) names

-- What follows the search, with the names that match.
unfoldable pub complete_with : Line → ℕ → List (List ℕ) → Line
complete_with l token_end [] = l
complete_with l token_end (name ∷ []) = replace_first_token l token_end name
complete_with l token_end (name ∷ other ∷ names) =
    let lcp = shared_len name (length name) (other ∷ names) in
    if ltb token_end lcp then replace_first_token l token_end (take lcp name) else l

unfoldable pub complete_app_name : Line → Line
complete_app_name l =
    let token_end = first_token_end l.cmdline l.len 0 in
    if ltb token_end l.cursor || l.cursor == 0
    then l
    else complete_with l token_end (matches l.cmdline l.cursor shell_app_names)
