-- ===== src/Shell/Editor/Typed.antt =====
-- A line that is typed in the line editor of src/user/apps/shell/main.c.
use aqua_core.Prelude.{
  ℕ, zero, suc, ◌+◌, ◌-◌, ◌<◌, ◌≡◌, ◌≢◌, refl, ap, ap₂, sym, ◌∙◌, ◌||◌, true, false, List, subst,
  [], ◌∷◌, ◌++◌, some, arith, ◌==◌, update, if-false, if-true, length, length-append,
}
use mathlib.Core.List.{append_assoc, append-nil}
use aqua_core.Shell.{cmdline_max}
use aqua_core.Shell.History.{History}
use aqua_core.Shell.Complete.{Line}
use aqua_core.Shell.Arrays.{bytes_from, bytes_from-same}
use aqua_core.Shell.Editor.{
  Editor, Key, char, enter, Outcome, editing, entered, press, read_key, insert_char, with_line,
  prompt, round, edit_line,
}

-- Bytes that no key but a character's own one sends.
abbrev pub IsTyped : List ℕ → Type 0
IsTyped [] = Unit
IsTyped (c ∷ s) = (31 < c) × (c ≢ 127) × IsTyped s

-- The string in the array.
pub record HasString (a : ℕ → ℕ) (s : List ℕ) : Type 0 where
  pub bytes : bytes_from a 0 (length s) ≡ s
  pub nul : a (length s) ≡ 0

-- The line so far, with the cursor at its end.
record HasTyped (l : Line) (s : List ℕ) : Type 0 where
  len : l.len ≡ length s
  cursor : l.cursor ≡ length s
  bytes : bytes_from l.cmdline 0 (length s) ≡ s

read_key-char : (c : ℕ) (cs : List ℕ) → 31 < c → c ≢ 127 → read_key (c ∷ cs) ≡ some (char c, cs)
unfolding read_key
read_key-char c cs low ne =
    let a : (c == 13 || c == 10) ≡ false = ground arith in
    let b : (c == 27) ≡ false = ground arith in
    let d : (c == 9) ≡ false = ground arith in
    let e : (c == 8 || c == 127) ≡ false = ground arith in
    if-false _ _ a ∙ if-false _ _ b ∙ if-false _ _ d ∙ if-false _ _ e

bytes_from-snoc :
    (a : ℕ → ℕ) (i n : ℕ) → bytes_from a i (suc n) ≡ bytes_from a i n ++ a (i + n) ∷ []
bytes_from-snoc a i zero = let e : i ≡ i + 0 = omega arith in ap (λ k. a k ∷ []) e
bytes_from-snoc a i (suc n) =
    let e : i + 1 + n ≡ i + suc n = omega arith in
    ap (◌∷◌ (a i)) (bytes_from-snoc a (i + 1) n ∙ ap (λ k. bytes_from a (i + 1) n ++ a k ∷ []) e)

insert_char-HasTyped :
    (l : Line) (s : List ℕ) (c : ℕ) → HasTyped l s → HasTyped (insert_char l c) (s ++ c ∷ [])
unfolding insert_char
insert_char-HasTyped l s c typed =
    let end : (l.cursor == l.len) ≡ true = ground (arith, typed.len, typed.cursor) in
    let more = length-append s (c ∷ []) in
    let a' = update l.cmdline l.len c in
    let n : length (s ++ c ∷ []) ≡ suc (length s) = omega (arith, more) in
    subst (λ l'. HasTyped l' (s ++ c ∷ [])) (sym (if-true _ _ end))
      (record {
        len = omega (arith, typed.len, more);
        cursor = omega (arith, typed.len, more);
        bytes =
            ap (bytes_from a' 0) n
            ∙ bytes_from-snoc a' 0 (length s)
            ∙ ap₂ (λ (xs : List ℕ) x. xs ++ x ∷ [])
                (bytes_from-same l.cmdline a' 0 0 (length s) (λ k lt. ground (arith, typed.len))
                  ∙ typed.bytes)
                (ground (arith, typed.len));
      })

-- The loop has ended with the string in the array, and the rest of the input.
pub record IsEntered (s rest : List ℕ) (r : Outcome × List ℕ) : Type 0 where
  pub cmdline : ℕ → ℕ
  pub ends : r ≡ (entered cmdline, rest)
  pub string : HasString cmdline s

press-char :
    (h : History) (e : Editor) (c : ℕ)
    → e.line.len + 1 < cmdline_max
    → press h e (char c) ≡ editing (with_line e (insert_char e.line c))
unfolding press
press-char h e c room =
    let b : (e.line.len == cmdline_max - 1) ≡ false = ground arith in if-false _ _ b

press-enter :
    (h : History) (e : Editor) → press h e enter ≡ entered (update e.line.cmdline e.line.len 0)
unfolding press
press-enter h e = refl

read_key-return : (cs : List ℕ) → read_key (13 ∷ cs) ≡ some (enter, cs)
unfolding read_key
read_key-return cs = refl

edit_line-key :
    (h : History) (n : ℕ) (e : Editor) (input : List ℕ) (k : Key) (rest : List ℕ)
    → read_key input ≡ some (k, rest)
    → edit_line h (suc n) (editing e) input ≡ edit_line h n (press h e k) rest
unfolding edit_line
edit_line-key h n e input k rest read =
    ap (λ r. edit_line h n (round h e input r).0 (round h e input r).1) read

edit_line-entered :
    (h : History) (n : ℕ) (a : ℕ → ℕ) (input : List ℕ)
    → edit_line h n (entered a) input ≡ (entered a, input)
unfolding edit_line
edit_line-entered h zero a input = refl
edit_line-entered h (suc n) a input = refl

ended-HasString : (l : Line) (s : List ℕ) → HasTyped l s → HasString (update l.cmdline l.len 0) s
ended-HasString l s typed = record {
  bytes =
      bytes_from-same l.cmdline (update l.cmdline l.len 0) 0 0 (length s)
        (λ k lt. ground (arith, typed.len))
      ∙ typed.bytes;
  nul = ground (arith, typed.len);
}

type_from :
    (h : History) (e : Editor) (s t rest : List ℕ) (n : ℕ)
    → HasTyped e.line s
    → IsTyped t
    → length s + length t < cmdline_max
    → length t < n
    → IsEntered (s ++ t) rest (edit_line h n (editing e) (t ++ 13 ∷ rest))
type_from h e s t rest zero typed ok room fuel = absurd (omega arith)
type_from h e s [] rest (suc n) typed ok room fuel = record {
  cmdline = update e.line.cmdline e.line.len 0;
  ends =
      edit_line-key h n e (13 ∷ rest) enter rest (read_key-return rest)
      ∙ ap (λ o. edit_line h n o rest) (press-enter h e)
      ∙ edit_line-entered h n (update e.line.cmdline e.line.len 0) rest;
  string =
      subst (HasString (update e.line.cmdline e.line.len 0)) (sym (append-nil s))
        (ended-HasString e.line s typed);
}
type_from h e s (c ∷ t) rest (suc n) typed (low, ne, ok) room fuel =
    let l = insert_char e.line c in
    let step : edit_line h (suc n) (editing e) (c ∷ t ++ 13 ∷ rest)
        ≡ edit_line h n (editing (with_line e l)) (t ++ 13 ∷ rest) =
      edit_line-key h n e (c ∷ t ++ 13 ∷ rest) (char c) (t ++ 13 ∷ rest)
        (read_key-char c (t ++ 13 ∷ rest) low ne)
      ∙ ap (λ o. edit_line h n o (t ++ 13 ∷ rest)) (press-char h e c (omega (arith, typed.len))) in
    let whole =
      type_from h (with_line e l) (s ++ c ∷ []) t rest n (insert_char-HasTyped e.line s c typed) ok
        (omega (arith, length-append s (c ∷ []))) (omega arith) in
    record {
      cmdline = whole.cmdline;
      ends = step ∙ whole.ends;
      string = subst (HasString whole.cmdline) (append_assoc s (c ∷ []) t) whole.string;
    }

-- When fewer than 64 bytes are typed at a prompt, each of which stands for itself, and then a carriage
-- return, the loop ends, whatever the arrays held, when it may go round once for each byte of these:
-- the command line is the string that was typed, and the rest of the input is not read.
pub edit_line-typed :
    (h : History) (cmdline draft : ℕ → ℕ) (s rest : List ℕ) (n : ℕ)
    → IsTyped s
    → length s < cmdline_max
    → length s < n
    → IsEntered s rest (edit_line h n (editing (prompt cmdline draft)) (s ++ 13 ∷ rest))
edit_line-typed h cmdline draft s rest n ok room fuel =
    type_from h (prompt cmdline draft) [] s rest n
      (record { len = refl; cursor = refl; bytes = refl }) ok (omega arith) fuel
