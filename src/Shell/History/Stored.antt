-- ===== src/Shell/History/Stored.antt =====
-- What `history_serialize` of src/user/apps/shell/utils.c writes: the encoded lines of the last entries.
use aqua_core.Prelude.{
  ℕ, zero, suc, ◌+◌, ◌-◌, ◌≤◌, ◌<◌, ◌≡◌, ◌≢◌, refl, ap, sym, subst, ◌∙◌, true, false, ◌||◌, List,
  [], ◌∷◌, ◌++◌, arith, ltb, leb, ◌==◌, if◌then◌else◌, length, length-append, Bool-cases, inl, inr,
  ltb→lt, ltb-false→le, if-false, if-cases,
}
use mathlib.Core.List.{append_assoc, append-nil}
use aqua_core.Shell.History.{
  History, index_of, history_encoded_line_len, start_from, write_line, write_from,
  history_serialize,
}
use aqua_core.Shell.History.Ring.{entries_from, entries_from-snoc}

-- A newline and a backslash are written with a backslash before them.
abbrev pub coded : ℕ → List ℕ
coded c = if c == 10 || c == b'\\' then b'\\' ∷ (if c == 10 then b'n' else b'\\') ∷ [] else c ∷ []

abbrev pub coded_line : List ℕ → List ℕ
coded_line [] = []
coded_line (c ∷ s) = coded c ++ coded_line s

-- The file with these lines.
abbrev pub file : List (List ℕ) → List ℕ
file [] = []
file (s ∷ lines) = coded_line s ++ 10 ∷ file lines

line_len : (s : List ℕ) → history_encoded_line_len s ≡ length (coded_line s) + 1
unfolding history_encoded_line_len
line_len [] = omega arith
line_len (c ∷ s) = elim (Bool-cases (c == 10 || c == b'\\')) [
  | inl special ↦ rw special (omega (arith, line_len s))
  | inr plain ↦ rw plain (omega (arith, line_len s))
]

length-coded : (c : ℕ) → 1 ≤ length (coded c)
length-coded c = elim (Bool-cases (c == 10 || c == b'\\')) [
  | inl special ↦ rw special (omega arith)
  | inr plain ↦ rw plain (omega arith)
]

write_line_lem :
    (out_cap : ℕ) (out s : List ℕ)
    → length out + length (coded_line s) ≤ out_cap
    → write_line out_cap out s ≡ (out ++ coded_line s, true)
unfolding write_line
write_line_lem out_cap out [] le = ap (λ o. (o, true)) (sym (append-nil out))
write_line_lem out_cap out (c ∷ s) le =
    let one = length-coded c in
    let sum = length-append (coded c) (coded_line s) in
    let next = length-append out (coded c) in
    let room : leb out_cap (length out) ≡ false = ground (arith, one, sum) in
    let enough : ltb out_cap (length out + length (coded c)) ≡ false = ground (arith, sum) in
    if-false _ _ room
    ∙ if-false _ _ enough
    ∙ write_line_lem out_cap (out ++ coded c) s (omega (arith, sum, next))
    ∙ ap (λ o. (o, true)) (append_assoc out (coded c) (coded_line s))

length-file-step :
    (s : List ℕ) (lines : List (List ℕ))
    → length (file (s ∷ lines)) ≡ length (coded_line s) + 1 + length (file lines)
length-file-step s lines = omega (arith, length-append (coded_line s) (10 ∷ file lines))

write_from_lem :
    (h : History) (out_cap : ℕ) (out : List ℕ) (i n : ℕ)
    → length out + length (file (entries_from h i n)) ≤ out_cap
    → write_from h out_cap out i n ≡ out ++ file (entries_from h i n)
unfolding write_from
write_from_lem h out_cap out i zero le = sym (append-nil out)
write_from_lem h out_cap out i (suc n) le =
    let s = h.lines (index_of h i) in
    let rest = file (entries_from h (i + 1) n) in
    let size = length-file-step s (entries_from h (i + 1) n) in
    let written = write_line_lem out_cap out s (omega (arith, size)) in
    let whole = length-append out (coded_line s) in
    let more = length-append (out ++ coded_line s) (10 ∷ []) in
    let enough : ltb out_cap (length (out ++ coded_line s) + 1) ≡ false =
      ground (arith, size, whole) in
    rw written (
      if-false _ _ enough
      ∙ write_from_lem h out_cap ((out ++ coded_line s) ++ 10 ∷ []) (i + 1) n
          (omega (arith, size, whole, more))
      ∙ append_assoc (out ++ coded_line s) (10 ∷ []) rest
      ∙ append_assoc out (coded_line s) (10 ∷ rest))

length-file-snoc :
    (lines : List (List ℕ)) (s : List ℕ)
    → length (file (lines ++ s ∷ [])) ≡ length (file lines) + (length (coded_line s) + 1)
length-file-snoc [] s = omega (arith, length-file-step s [])
length-file-snoc (l ∷ lines) s = omega (
  arith,
  length-file-step l (lines ++ s ∷ []),
  length-file-step l lines,
  length-file-snoc lines s,
)

-- The size of the file with the entries from `start` to i.
abbrev size_from : History → ℕ → ℕ → ℕ
size_from h start i = length (file (entries_from h start (i - start)))

size_from-suc :
    (h : History) (start i : ℕ)
    → start ≤ i
    → size_from h start (suc i)
      ≡ size_from h start i + history_encoded_line_len (h.lines (index_of h i))
size_from-suc h start i le =
    let e : suc i - start ≡ suc (i - start) = omega arith in
    let at : start + (i - start) ≡ i = omega arith in
    let lines = entries_from h start (i - start) in
    ap (λ n. length (file (entries_from h start n))) e
    ∙ ap (λ l. length (file l)) (entries_from-snoc h start (i - start))
    ∙ length-file-snoc lines (h.lines (index_of h (start + (i - start))))
    ∙ ap (λ k. length (file lines) + (length (coded_line (h.lines (index_of h k))) + 1)) at
    ∙ ap (λ n. length (file lines) + n) (sym (line_len (h.lines (index_of h i))))

-- The entries from `start` to i fit, and no more would.
record IsStart (h : History) (out_cap total i start : ℕ) : Type 0 where
  below : start ≤ i
  fits : total + size_from h start i ≤ out_cap
  longest : start ≢ 0 → out_cap < total + size_from h (start - 1) i

size_from-none : (h : History) (i : ℕ) → size_from h i i ≡ 0
size_from-none h i = let e : i - i ≡ 0 = omega arith in rw e refl

start_from-IsStart :
    (h : History) (out_cap total i : ℕ)
    → total ≤ out_cap
    → IsStart h out_cap total i (start_from h out_cap total i)
unfolding start_from
start_from-IsStart h out_cap total zero le = record {
  below = omega arith;
  fits = omega arith;
  longest = λ ne. absurd (ne refl);
}
start_from-IsStart h out_cap total (suc i) le =
    let len = history_encoded_line_len (h.lines (index_of h i)) in
    if-cases (IsStart h out_cap total (suc i)) (ltb out_cap (total + len)) _ _
      (λ over. record {
        below = omega arith;
        fits = omega (arith, size_from-none h (suc i));
        longest = λ ne.
            let e : suc i - 1 ≡ i = omega arith in
            subst (λ k. out_cap < total + size_from h k (suc i)) (sym e)
              (omega (
                arith,
                size_from-suc h i i (omega arith),
                size_from-none h i,
                ltb→lt out_cap (total + len) over,
              ));
      })
      (λ room.
        let start = start_from h out_cap (total + len) i in
        let rest =
          start_from-IsStart h out_cap (total + len) i (ltb-false→le out_cap (total + len) room) in
        record {
          below = omega (arith, rest.below);
          fits = omega (arith, rest.fits, size_from-suc h start i rest.below);
          longest = λ ne.
              omega
                (arith, rest.longest ne, size_from-suc h (start - 1) i (omega (arith, rest.below)));
        })

-- The bytes are the file with the entries from `start` on. They fit in the capacity, and with one entry
-- more they would not.
pub record IsSaved (h : History) (out_cap start : ℕ) (out : List ℕ) : Type 0 where
  pub below : start ≤ h.count
  pub bytes : out ≡ file (entries_from h start (h.count - start))
  pub fits : length out ≤ out_cap
  pub longest :
      start ≢ 0 → out_cap < length (file (entries_from h (start - 1) (h.count - (start - 1))))

-- In an array of any capacity but 0, `history_serialize` writes the encoded lines of the last entries,
-- as many as fit.
pub history_serialize-IsSaved :
    (h : History) (out_cap : ℕ)
    → 0 < out_cap
    → IsSaved h out_cap (start_from h out_cap 0 h.count) (history_serialize h out_cap)
unfolding history_serialize
history_serialize-IsSaved h out_cap some_room =
    let start = start_from h out_cap 0 h.count in
    let found = start_from-IsStart h out_cap 0 h.count (omega arith) in
    let room : (out_cap == 0) ≡ false = ground arith in
    let bytes =
      if-false _ _ room
      ∙ write_from_lem h out_cap [] start (h.count - start) (omega (arith, found.fits)) in
    record {
      below = found.below;
      bytes = bytes;
      fits = omega (arith, found.fits, ap length bytes);
      longest = λ ne. omega (arith, found.longest ne);
    }
