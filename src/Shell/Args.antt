-- ===== src/Shell/Args.antt =====
-- The parsing of a command line in src/user/apps/shell/utils.c. A C string is the list of its bytes
-- before the NUL. `split_args` works in place: it returns the line with NULs for the blanks, and argv
-- as positions in the line.
pub mod Words
pub mod Redirect
pub mod Number
use aqua_core.Prelude.{
  ℕ, zero, suc, ◌+◌, ◌-◌, ◌*◌, ◌%◌, Bool, true, false, not, ◌&&◌, ◌||◌, Option, none, some, List,
  [], ◌∷◌, ltb, leb, ◌==◌, if◌then◌else◌, drop, get_or, length, u32,
}
use aqua_core.Fs.Path.{str_eq}

-- A space or a tab.
abbrev pub is_blank : ℕ → Bool
is_blank c = c == b' ' || c == 9

-- What the loop leaves of the line, and the starts of the tokens.
pub record Split : Type 0 where
  pub line : List ℕ
  pub argv : List ℕ

-- The loop at position i, with argc tokens stored.
unfoldable pub split_from : ℕ → ℕ → ℕ → Bool → List ℕ → Split
split_from argv_max i argc in_token [] = record { line = []; argv = [] }
split_from argv_max i argc in_token (c ∷ cs) =
    let stored = not (is_blank c) && (not in_token && ltb argc argv_max) in
    let rest =
      split_from argv_max (i + 1) (if stored then argc + 1 else argc) (not (is_blank c)) cs in
    record {
      line = (if is_blank c then 0 else c) ∷ rest.line;
      argv = if stored then i ∷ rest.argv else rest.argv;
    }

unfoldable pub split_args : List ℕ → ℕ → Split
split_args line argv_max = split_from argv_max 0 0 false line

-- The bytes of an array before the first NUL.
unfoldable pub before_nul : List ℕ → List ℕ
before_nul [] = []
before_nul (c ∷ cs) = if c == 0 then [] else c ∷ before_nul cs

-- The string that a pointer into the line points at.
abbrev pub token_at : List ℕ → ℕ → List ℕ
token_at line i = before_nul (drop i line)

-- The loop of `parse_int`, with the bits of the `int` value. none is -1. An overflow of the int, which
-- the C standard leaves undefined, wraps here, as the processor's arithmetic does.
unfoldable pub parse_digits : ℕ → List ℕ → Option ℕ
parse_digits value [] = some value
parse_digits value (c ∷ s) =
    let rest = parse_digits ((value * 10 + (c - b'0')) % u32) s in
    if ltb c b'0' || ltb b'9' c then none else rest

unfoldable pub parse_int : List ℕ → Option ℕ
parse_int [] = none
parse_int (c ∷ s) = parse_digits 0 (c ∷ s)

abbrev pub input_op : List ℕ
input_op = b'<' ∷ []

abbrev pub output_op : List ℕ
output_op = b'>' ∷ []

-- What `parse_redirection` stores: the arguments that are left, and the paths, none where NULL.
pub record Redirection : Type 0 where
  pub exec_argv : List (List ℕ)
  pub in_path : Option (List ℕ)
  pub out_path : Option (List ℕ)

-- A word that is kept goes before the words that the rest of the loop keeps.
abbrev pub keep_word : List ℕ → Option Redirection → Option Redirection
keep_word w none = none
keep_word w (some r) = some (record r { exec_argv = w ∷ r.exec_argv })

-- The loop, with the paths stored so far. none is -1.
unfoldable pub redirect_from :
    Option (List ℕ) → Option (List ℕ) → List (List ℕ) → Option Redirection
redirect_from in_path out_path [] =
    some (record { exec_argv = []; in_path = in_path; out_path = out_path })
redirect_from in_path out_path (w ∷ []) =
    if str_eq w input_op || str_eq w output_op
    then none
    else some (record { exec_argv = w ∷ []; in_path = in_path; out_path = out_path })
redirect_from in_path out_path (w ∷ v ∷ ws) =
    let input = get_or w 0 0 == b'<' in
    let skipped =
      redirect_from (if input then some v else in_path) (if input then out_path else some v) ws in
    let kept = redirect_from in_path out_path (v ∷ ws) in
    if str_eq w input_op || str_eq w output_op then skipped else keep_word w kept

unfoldable pub parse_redirection : List (List ℕ) → Option Redirection
parse_redirection argv = redirect_from none none argv

-- Whether the last of the argv, which is not empty, is `&`.
unfoldable pub is_background : List (List ℕ) → Bool
is_background argv = str_eq (get_or argv (length argv - 1) []) (b'&' ∷ [])
