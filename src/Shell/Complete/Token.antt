-- ===== src/Shell/Complete/Token.antt =====
-- The replacement of the first word of a command line in src/user/apps/shell/main.c.
use aqua_core.Prelude.{
  ℕ, zero, suc, ◌+◌, ◌-◌, ◌≤◌, ◌<◌, ◌≡◌, refl, ap, ◌∙◌, List, [], ◌∷◌, arith, ltb, leb,
  if◌then◌else◌, update, get_or, length, if-cases, leb→le, inl, inr, ◌⊎◌,
}
use aqua_core.Shell.{cmdline_max}
use aqua_core.Shell.Arrays.{move_up, move_down, move_up_lem, move_down_lem}
use aqua_core.Shell.Complete.{Line, put_token, replace_first_token}

put_token-outside :
    (a : ℕ → ℕ) (i : ℕ) (s : List ℕ) (j : ℕ)
    → (j < i) ⊎ (i + length s ≤ j)
    → put_token a i s j ≡ a j
unfolding put_token
put_token-outside a i [] j h = refl
put_token-outside a i (c ∷ s) j (inl lt) =
    put_token-outside (update a i c) (i + 1) s j (inl (omega arith)) ∙ ground arith
put_token-outside a i (c ∷ s) j (inr le) =
    put_token-outside (update a i c) (i + 1) s j (inr (omega arith)) ∙ ground arith

put_token-inside :
    (a : ℕ → ℕ) (i : ℕ) (s : List ℕ) (k : ℕ) → k < length s → put_token a i s (i + k) ≡ get_or s k 0
unfolding put_token
put_token-inside a i [] k lt = absurd (omega arith)
put_token-inside a i (c ∷ s) zero lt =
    put_token-outside (update a i c) (i + 1) s (i + 0) (inl (omega arith)) ∙ ground arith
put_token-inside a i (c ∷ s) (suc k) lt =
    let e : i + suc k ≡ i + 1 + k = omega arith in
    ap (put_token (update a i c) (i + 1) s) e
    ∙ put_token-inside (update a i c) (i + 1) s k (omega arith)

-- The line starts with the token, and what followed the old one follows it.
pub record IsReplaced (l : Line) (old_len : ℕ) (token : List ℕ) (l' : Line) : Type 0 where
  pub len : l'.len ≡ length token + (l.len - old_len)
  pub cursor : l'.cursor ≡ length token
  pub token_bytes : (k : ℕ) → k < length token → l'.cmdline k ≡ get_or token k 0
  pub tail : (k : ℕ) → k < l.len - old_len → l'.cmdline (length token + k) ≡ l.cmdline (old_len + k)
  pub nul : l'.cmdline l'.len ≡ 0

-- The bytes after the old token are where they belong when the gap has been made.
abbrev IsMoved : Line → ℕ → ℕ → (ℕ → ℕ) → Type 0
IsMoved l old_len new_len a =
    (k : ℕ) → k < l.len - old_len → a (new_len + k) ≡ l.cmdline (old_len + k)

put_token-IsReplaced :
    (l : Line) (old_len : ℕ) (token : List ℕ) (a : ℕ → ℕ)
    → IsMoved l old_len (length token) a
    → IsReplaced l old_len token (record {
      cmdline = update (put_token a 0 token) (length token + (l.len - old_len)) 0;
      len = length token + (l.len - old_len);
      cursor = length token;
    })
put_token-IsReplaced l old_len token a moved = record {
  len = refl;
  cursor = refl;
  token_bytes = λ k lt.
      let e : k ≡ 0 + k = omega arith in
      let at = ap (put_token a 0 token) e ∙ put_token-inside a 0 token k lt in ground (arith, at);
  tail = λ k lt.
      let at = put_token-outside a 0 token (length token + k) (inr (omega arith)) ∙ moved k lt in
      ground (arith, at);
  nul = ground arith;
}

-- What a replacement may do.
pub data Replacement (l : Line) (old_len : ℕ) (token : List ℕ) : Line → Type 0 where
  no_room : cmdline_max ≤ length token + (l.len - old_len) → Replacement l old_len token l
  replaced :
      (l' : Line)
      → l'.len < cmdline_max
      → IsReplaced l old_len token l'
      → Replacement l old_len token l'

move_up-IsMoved :
    (l : Line) (old_len new_len : ℕ)
    → old_len ≤ l.len
    → IsMoved l old_len new_len (
        if ltb old_len new_len
        then move_up l.cmdline old_len (new_len - old_len) (l.len + 1 - old_len)
        else if ltb new_len old_len
        then move_down l.cmdline new_len (old_len - new_len) (l.len + 1 - old_len)
        else l.cmdline)
move_up-IsMoved l old_len new_len le =
    if-cases (IsMoved l old_len new_len) (ltb old_len new_len) _ _
      (λ longer k lt.
        let d = new_len - old_len in
        let back : new_len + k - d ≡ old_len + k = ground arith in
        ground (
          arith,
          move_up_lem l.cmdline old_len d (l.len + 1 - old_len) (new_len + k),
          ap l.cmdline back,
        ))
      (λ not_longer.
        if-cases (IsMoved l old_len new_len) (ltb new_len old_len) _ _
          (λ shorter k lt.
            let d = old_len - new_len in
            let back : new_len + k + d ≡ old_len + k = ground arith in
            ground (
              arith,
              move_down_lem l.cmdline new_len d (l.len + 1 - old_len) (new_len + k),
              ap l.cmdline back,
            ))
          (λ not_shorter k lt.
            let same : new_len + k ≡ old_len + k = ground arith in ap l.cmdline same))

-- For an old token within the line: when the new line leaves room for its NUL, `replace_first_token`
-- puts the token in the place of the first old_token_len bytes, what followed these follows the
-- token, the line ends with a NUL and the cursor is after the token. Otherwise the line stays.
pub replace_first_token-Replacement :
    (l : Line) (old_len : ℕ) (token : List ℕ)
    → old_len ≤ l.len
    → Replacement l old_len token (replace_first_token l old_len token)
unfolding replace_first_token
replace_first_token-Replacement l old_len token le =
    if-cases (Replacement l old_len token) (leb cmdline_max (length token + (l.len - old_len))) _ _
      (λ long. no_room (leb→le _ _ long))
      (λ fits.
        replaced _ (ground arith)
          (put_token-IsReplaced l old_len token _ (move_up-IsMoved l old_len (length token) le)))
