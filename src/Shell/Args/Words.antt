-- ===== src/Shell/Args/Words.antt =====
-- `split_args` of src/user/apps/shell/utils.c against the words of a line.
use aqua_core.Prelude.{
  ℕ, ◌+◌, ◌-◌, ◌≡◌, ◌≢◌, refl, ap, ap₂, sym, ◌∙◌, Bool, true, false, List, [], ◌∷◌, ◌++◌, map,
  arith, ltb, ◌==◌, if◌then◌else◌, drop, take, take_empty, take_more, take_full, length,
  length-append, Bool-cases, ltb→lt, ltb-false→le, inl, inr,
}
use mathlib.Core.List.{append_assoc}
use aqua_core.Fs.Block.Image.{IsText}
use aqua_core.Shell.Args.{is_blank, split_from, split_args, before_nul, token_at}

-- A line cut at each blank: the piece before the first one, and the others.
abbrev pub pieces : List ℕ → List ℕ × List (List ℕ)
pieces [] = ([], [])
pieces (c ∷ cs) =
    let rest = pieces cs in if is_blank c then ([], rest.0 ∷ rest.1) else (c ∷ rest.0, rest.1)

abbrev pub nonempty : List (List ℕ) → List (List ℕ)
nonempty [] = []
nonempty ([] ∷ ws) = nonempty ws
nonempty ((c ∷ w) ∷ ws) = (c ∷ w) ∷ nonempty ws

-- The words of a line: the pieces that are not empty.
abbrev pub words : List ℕ → List (List ℕ)
words line = nonempty ((pieces line).0 ∷ (pieces line).1)

-- The words that start in a suffix of the line.
abbrev starting : Bool → List ℕ → List (List ℕ)
starting true cs = nonempty (pieces cs).1
starting false cs = words cs

drop_prefix : (pre xs : List ℕ) → drop (length pre) (pre ++ xs) ≡ xs
drop_prefix [] xs = refl
drop_prefix (p ∷ pre) xs = drop_prefix pre xs

first_piece :
    (m i argc : ℕ) (b : Bool) (cs : List ℕ)
    → IsText cs
    → before_nul (split_from m i argc b cs).line ≡ (pieces cs).0
unfolding split_from before_nul
first_piece m i argc b [] t = refl
first_piece m i argc b (c ∷ cs) (ne, t) = elim (Bool-cases (is_blank c)) [
  | inl blank ↦ rw (blank, before_nul) refl
  | inr dark ↦
      let live : (c == 0) ≡ false = ground arith in
      rw (dark, live, before_nul) (ap (◌∷◌ c) (first_piece m (i + 1) _ true cs t))
]

-- The tokens of the line up to its byte x, followed by the rest.
abbrev tokens : List ℕ → List ℕ → List (List ℕ)
tokens line argv = map (token_at line) argv

tokens_move :
    (pre : List ℕ) (x : ℕ) (line argv : List ℕ) (ws : List (List ℕ))
    → tokens ((pre ++ x ∷ []) ++ line) argv ≡ ws
    → tokens (pre ++ x ∷ line) argv ≡ ws
tokens_move pre x line argv ws h =
    ap (λ l. tokens l argv) (sym (append_assoc pre (x ∷ []) line)) ∙ h

length_snoc : (pre : List ℕ) (x i : ℕ) → length pre ≡ i → length (pre ++ x ∷ []) ≡ i + 1
length_snoc pre x i h = omega (arith, length-append pre (x ∷ []), h)

token_here :
    (pre line : List ℕ) (c i : ℕ) (w : List ℕ)
    → length pre ≡ i
    → c ≢ 0
    → before_nul line ≡ w
    → token_at (pre ++ c ∷ line) i ≡ c ∷ w
unfolding before_nul
token_here pre line c i w at ne h =
    let live : (c == 0) ≡ false = ground arith in rw (← at, drop_prefix, live) (ap (◌∷◌ c) h)

split_from-tokens :
    (m i argc : ℕ) (b : Bool) (pre cs : List ℕ)
    → length pre ≡ i
    → IsText cs
    → tokens (pre ++ (split_from m i argc b cs).line) (split_from m i argc b cs).argv
      ≡ take (m - argc) (starting b cs)
unfolding split_from
split_from-tokens m i argc true pre [] at t = sym (take_empty (m - argc))
split_from-tokens m i argc false pre [] at t = sym (take_empty (m - argc))
split_from-tokens m i argc true pre (c ∷ cs) at (ne, t) = elim (Bool-cases (is_blank c)) [
  | inl blank ↦ rw blank (
      tokens_move pre 0 _ _ _
        (split_from-tokens m (i + 1) argc false (pre ++ 0 ∷ []) cs (length_snoc pre 0 i at) t))
  | inr dark ↦ rw dark (
      tokens_move pre c _ _ _
        (split_from-tokens m (i + 1) argc true (pre ++ c ∷ []) cs (length_snoc pre c i at) t))
]
split_from-tokens m i argc false pre (c ∷ cs) at (ne, t) = elim (Bool-cases (is_blank c)) [
  | inl blank ↦ rw blank (
      tokens_move pre 0 _ _ _
        (split_from-tokens m (i + 1) argc false (pre ++ 0 ∷ []) cs (length_snoc pre 0 i at) t))
  | inr dark ↦
      let rest = λ (n : ℕ).
        tokens_move pre c _ _ _
          (split_from-tokens m (i + 1) n true (pre ++ c ∷ []) cs (length_snoc pre c i at) t) in
      elim (Bool-cases (ltb argc m)) [
        | inl room ↦
            rw (dark, room)
              (ap₂ ◌∷◌ (token_here pre _ c i _ at ne (first_piece m (i + 1) (argc + 1) true cs t))
                  (rest (argc + 1))
                ∙ sym (take_more m argc _ _ (ltb→lt argc m room)))
        | inr full ↦
            rw (dark, full)
              (rest argc
                ∙ take_full m argc _ (ltb-false→le argc m full)
                ∙ sym (take_full m argc _ (ltb-false→le argc m full)))
      ]
]

-- The tokens that `split_args` finds in a line without NUL are the line's words, the first argv_max
-- of them, when each position that it stores is read in the line that it leaves.
pub split_args-words :
    (line : List ℕ) (argv_max : ℕ)
    → IsText line
    → map (token_at (split_args line argv_max).line) (split_args line argv_max).argv
      ≡ take argv_max (words line)
unfolding split_args
split_args-words line argv_max t =
    let e : argv_max - 0 ≡ argv_max = omega arith in
    split_from-tokens argv_max 0 0 false [] line refl t ∙ ap (λ n. take n (words line)) e
