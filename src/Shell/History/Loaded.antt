-- ===== src/Shell/History/Loaded.antt =====
-- `history_load` of src/user/apps/shell/utils.c on the file that `history_serialize` wrote.
use aqua_core.Prelude.{
  ℕ, zero, suc, ◌+◌, ◌-◌, ◌≤◌, ◌<◌, ◌≡◌, ◌≢◌, refl, ap, sym, subst, ◌∙◌, true, false, some, List,
  [], ◌∷◌, ◌++◌, arith, ltb, ◌==◌, length, length-append, take, Bool-cases, inl, inr, if-true,
  if-false,
}
use mathlib.Core.List.{append_assoc, append-nil}
use aqua_core.Shell.{cmdline_max, history_max}
use aqua_core.Shell.History.{
  History, index_of, history_push, history_serialize, Loading, add_byte, load_byte, load_bytes,
  load_chunks, load_end, history_load, start_from,
}
use aqua_core.Shell.History.Ring.{
  entries_from, entries, IsRing, history_push-IsPushed, keep_last-few, pushed, length-entries_from,
}
use aqua_core.Shell.History.Stored.{coded, coded_line, file, IsSaved, history_serialize-IsSaved}

-- A line that the editor can end: no carriage return, not empty, and with room for its NUL.
abbrev pub NoReturn : List ℕ → Type 0
NoReturn [] = Unit
NoReturn (c ∷ s) = (c ≢ 13) × NoReturn s

pub record IsLine (s : List ℕ) : Type 0 where
  pub no_return : NoReturn s
  pub nonempty : 0 < length s
  pub short : length s < cmdline_max

abbrev pub AllLines : List (List ℕ) → Type 0
AllLines [] = Unit
AllLines (s ∷ lines) = IsLine s × AllLines lines

-- The loop between two bytes of a line.
abbrev midway : History → List ℕ → Loading
midway h line = record { history = h; line = line; escaped = false }

load_bytes-append :
    (l : Loading) (xs ys : List ℕ) → load_bytes l (xs ++ ys) ≡ load_bytes (load_bytes l xs) ys
unfolding load_bytes
load_bytes-append l [] ys = refl
load_bytes-append l (x ∷ xs) ys = load_bytes-append (load_byte l x) xs ys

add_byte-fits :
    (line : List ℕ) (c : ℕ) → length line + 1 < cmdline_max → add_byte line c ≡ line ++ c ∷ []
add_byte-fits line c room =
    let fits : ltb (length line) (cmdline_max - 1) ≡ true = ground arith in if-true _ _ fits

load_byte-plain :
    (h : History) (line : List ℕ) (c : ℕ)
    → c ≢ 13
    → (c == 10) ≡ false
    → (c == b'\\') ≡ false
    → load_byte (midway h line) c ≡ midway h (add_byte line c)
unfolding load_byte
load_byte-plain h line c ne other plain =
    let here : (c == 13) ≡ false = ground arith in
    if-false _ _ here ∙ if-false _ _ plain ∙ if-false _ _ other

load_bytes-coded :
    (h : History) (line : List ℕ) (c : ℕ)
    → c ≢ 13
    → length line + 1 < cmdline_max
    → load_bytes (midway h line) (coded c) ≡ midway h (line ++ c ∷ [])
unfolding load_bytes load_byte
load_bytes-coded h line c ne room = elim (Bool-cases (c == 10)) [
  | inl newline ↦
      let same : 10 ≡ c = ground arith in
      subst (λ x. load_bytes (midway h line) (coded x) ≡ midway h (line ++ x ∷ [])) same
        (ap (midway h) (add_byte-fits line 10 room))
  | inr other ↦ elim (Bool-cases (c == b'\\')) [
    | inl slash ↦
        let same : b'\\' ≡ c = ground arith in
        subst (λ x. load_bytes (midway h line) (coded x) ≡ midway h (line ++ x ∷ [])) same
          (ap (midway h) (add_byte-fits line b'\\' room))
    | inr plain ↦
        rw (other, plain)
          (load_byte-plain h line c ne other plain ∙ ap (midway h) (add_byte-fits line c room))
  ]
]

load_bytes-line :
    (h : History) (line s rest : List ℕ)
    → NoReturn s
    → length line + length s < cmdline_max
    → load_bytes (midway h line) (coded_line s ++ 10 ∷ rest)
      ≡ load_bytes (midway (history_push h (line ++ s)) []) rest
unfolding load_bytes load_byte
load_bytes-line h line [] rest ok room =
    ap (λ l. load_bytes (midway (history_push h l) []) rest) (sym (append-nil line))
load_bytes-line h line (c ∷ s) rest (ne, ok) room =
    ap (load_bytes (midway h line)) (append_assoc (coded c) (coded_line s) (10 ∷ rest))
    ∙ load_bytes-append (midway h line) (coded c) (coded_line s ++ 10 ∷ rest)
    ∙ ap (λ l. load_bytes l (coded_line s ++ 10 ∷ rest))
        (load_bytes-coded h line c ne (omega arith))
    ∙ load_bytes-line h (line ++ c ∷ []) s rest ok (omega (arith, length-append line (c ∷ [])))
    ∙ ap (λ l. load_bytes (midway (history_push h l) []) rest) (append_assoc line (c ∷ []) s)

abbrev push_all : History → List (List ℕ) → History
push_all h [] = h
push_all h (s ∷ lines) = push_all (history_push h s) lines

load_bytes-file :
    (h : History) (lines : List (List ℕ))
    → AllLines lines
    → load_bytes (midway h []) (file lines) ≡ midway (push_all h lines) []
unfolding load_bytes
load_bytes-file h [] ok = refl
load_bytes-file h (s ∷ lines) (line, ok) =
    load_bytes-line h [] s (file lines) line.no_return (omega (arith, line.short))
    ∙ load_bytes-file (history_push h s) lines ok

take_short : (n : ℕ) (s : List ℕ) → length s ≤ n → take n s ≡ s
take_short zero [] le = refl
take_short zero (c ∷ s) le = absurd (omega arith)
take_short (suc n) [] le = refl
take_short (suc n) (c ∷ s) le = ap (◌∷◌ c) (take_short n s (omega arith))

-- A line with room for it is added whole.
pushed-line :
    (lines : List (List ℕ)) (s : List ℕ)
    → IsLine s
    → length lines < history_max
    → pushed lines s ≡ lines ++ s ∷ []
pushed-line lines [] line room = absurd (omega (arith, line.nonempty))
pushed-line lines (c ∷ s) line room =
    let cut = take (cmdline_max - 1) (c ∷ s) in
    keep_last-few history_max (lines ++ cut ∷ []) (omega (arith, length-append lines (cut ∷ [])))
    ∙ ap (λ x. lines ++ x ∷ []) (take_short (cmdline_max - 1) (c ∷ s) (omega (arith, line.short)))

entries-push_all :
    (h : History) (lines : List (List ℕ))
    → IsRing h
    → AllLines lines
    → length (entries h) + length lines ≤ history_max
    → entries (push_all h lines) ≡ entries h ++ lines
entries-push_all h [] ring ok room = sym (append-nil (entries h))
entries-push_all h (s ∷ lines) ring (line, ok) room =
    let step = history_push-IsPushed h s ring in
    let one = step.lines ∙ pushed-line (entries h) s line (omega arith) in
    entries-push_all (history_push h s) lines step.ring ok
      (omega (arith, ap length one, length-append (entries h) (s ∷ [])))
    ∙ ap (λ x. x ++ lines) one
    ∙ append_assoc (entries h) (s ∷ []) lines

-- The bytes that calls of `fs_read` return, each at least one byte.
abbrev pub AllRead : List (List ℕ) → Type 0
AllRead [] = Unit
AllRead (chunk ∷ chunks) = (0 < length chunk) × AllRead chunks

abbrev pub contents : List (List ℕ) → List ℕ
contents [] = []
contents (chunk ∷ chunks) = chunk ++ contents chunks

load_chunks-contents :
    (l : Loading) (chunks : List (List ℕ))
    → AllRead chunks
    → load_chunks l chunks ≡ load_bytes l (contents chunks)
unfolding load_chunks load_bytes
load_chunks-contents l [] ok = refl
load_chunks-contents l ([] ∷ chunks) (some_bytes, ok) = absurd (omega arith)
load_chunks-contents l ((c ∷ cs) ∷ chunks) (some_bytes, ok) =
    load_chunks-contents (load_bytes l (c ∷ cs)) chunks ok
    ∙ sym (load_bytes-append l (c ∷ cs) (contents chunks))

load_file :
    (h : History) (lines chunks : List (List ℕ))
    → AllRead chunks
    → contents chunks ≡ file lines
    → AllLines lines
    → length lines ≤ history_max
    → entries (history_load h (some chunks)) ≡ lines
unfolding history_load load_end history_push
load_file h lines chunks read same ok few =
    let none_yet = record h { head = 0; count = 0 } in
    let ring : IsRing none_yet = record { head = omega arith; count = omega arith } in
    ap (λ l. entries (load_end l))
      (load_chunks-contents (midway none_yet []) chunks read
        ∙ ap (load_bytes (midway none_yet [])) same
        ∙ load_bytes-file none_yet lines ok)
    ∙ entries-push_all none_yet lines ring ok (omega arith)

AllLines-entries_from :
    (h : History) (i n : ℕ)
    → ((k : ℕ) → k < i + n → IsLine (h.lines (index_of h k)))
    → AllLines (entries_from h i n)
AllLines-entries_from h i zero ok = tt
AllLines-entries_from h i (suc n) ok =
    (ok i (omega arith), AllLines-entries_from h (i + 1) n (λ k lt. ok k (omega arith)))

-- The history that is read back from what was written.
pub record IsRestored (h : History) (out : List ℕ) (h' : History) : Type 0 where
  pub start : ℕ
  pub saved : IsSaved h 512 start out
  pub lines : entries h' ≡ entries_from h start (h.count - start)

-- When a well-formed history whose entries are lines (not empty, less than 64 bytes, no carriage
-- return) is written in the 512 bytes of its file, and the file is read back in pieces of any sizes
-- but 0, whatever the history was before: the entries are the last ones of the written history, as
-- many as fit in the file, in their order.
pub history_load-history_serialize :
    (h old : History) (chunks : List (List ℕ))
    → IsRing h
    → ((k : ℕ) → k < h.count → IsLine (h.lines (index_of h k)))
    → AllRead chunks
    → contents chunks ≡ history_serialize h 512
    → IsRestored h (history_serialize h 512) (history_load old (some chunks))
history_load-history_serialize h old chunks ring ok read same =
    let start = start_from h 512 0 h.count in
    let saved = history_serialize-IsSaved h 512 (omega arith) in
    let n = h.count - start in
    record {
      start = start;
      saved = saved;
      lines =
          load_file old (entries_from h start n) chunks read (same ∙ saved.bytes)
            (AllLines-entries_from h start n (λ k lt. ok k (omega (arith, saved.below))))
            (omega (arith, length-entries_from h start n, ring.count));
    }
