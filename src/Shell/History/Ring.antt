-- ===== src/Shell/History/Ring.antt =====
-- The ring of the history in src/user/apps/shell/utils.c against the list of its lines.
use aqua_core.Prelude.{
  update_self, update_other, ℕ, zero, suc, ◌+◌, ◌-◌, ◌%◌, ◌≤◌, ◌<◌, ◌≡◌, refl, ap, ap₂, sym, ◌∙◌,
  some, List, [], ◌∷◌, ◌++◌, arith, ltb, length, length-append, take, drop, update, ltb→lt,
  if-cases, get_elem?, ltb-false→le,
}
use aqua_core.Shell.{cmdline_max, history_max}
use aqua_core.Shell.History.{History, index_of, history_push}

-- The n entries from i on.
abbrev pub entries_from : History → ℕ → ℕ → List (List ℕ)
entries_from h i zero = []
entries_from h i (suc n) = h.lines (index_of h i) ∷ entries_from h (i + 1) n

-- The lines of the history, the oldest first.
abbrev pub entries : History → List (List ℕ)
entries h = entries_from h 0 h.count

pub record IsRing (h : History) : Type 0 where
  pub head : h.head < history_max
  pub count : h.count ≤ history_max

abbrev pub keep_last {ℓ} : {A : Type ℓ} → ℕ → List A → List A
keep_last n xs = drop (length xs - n) xs

-- The specification of a push: the line is added, cut to its array, if it is not empty, and the oldest
-- one goes if there are too many.
abbrev pub pushed : List (List ℕ) → List ℕ → List (List ℕ)
pushed lines [] = lines
pushed lines (c ∷ line) = keep_last history_max (lines ++ take (cmdline_max - 1) (c ∷ line) ∷ [])

-- Entries that agree.
entries_from-same :
    (h h' : History) (i j n : ℕ)
    → ((k : ℕ) → k < n → h'.lines (index_of h' (j + k)) ≡ h.lines (index_of h (i + k)))
    → entries_from h' j n ≡ entries_from h i n
entries_from-same h h' i j zero same = refl
entries_from-same h h' i j (suc n) same =
    let zero_i : i + 0 ≡ i = omega arith in
    let zero_j : j + 0 ≡ j = omega arith in
    ap₂ ◌∷◌
      (ap (λ x. h'.lines (index_of h' x)) (sym zero_j)
        ∙ same 0 (omega arith)
        ∙ ap (λ x. h.lines (index_of h x)) zero_i)
      (entries_from-same h h' (i + 1) (j + 1) n (λ k lt.
        let next_i : i + 1 + k ≡ i + suc k = omega arith in
        let next_j : j + 1 + k ≡ j + suc k = omega arith in
        ap (λ x. h'.lines (index_of h' x)) next_j
        ∙ same (suc k) (omega arith)
        ∙ ap (λ x. h.lines (index_of h x)) (sym next_i)))

pub entries_from-snoc :
    (h : History) (i n : ℕ)
    → entries_from h i (suc n) ≡ entries_from h i n ++ h.lines (index_of h (i + n)) ∷ []
entries_from-snoc h i zero =
    let same : i ≡ i + 0 = omega arith in ap (λ x. h.lines (index_of h x) ∷ []) same
entries_from-snoc h i (suc n) =
    let same : i + 1 + n ≡ i + suc n = omega arith in
    ap (◌∷◌ (h.lines (index_of h i))) (
      entries_from-snoc h (i + 1) n
      ∙ ap (λ x. entries_from h (i + 1) n ++ h.lines (index_of h x) ∷ []) same)

pub length-entries_from : (h : History) (i n : ℕ) → length (entries_from h i n) ≡ n
length-entries_from h i zero = refl
length-entries_from h i (suc n) = ap suc (length-entries_from h (i + 1) n)

pub keep_last-few {ℓ} : {A : Type ℓ} (n : ℕ) (xs : List A) → length xs ≤ n → keep_last n xs ≡ xs
keep_last-few n xs le = let e : length xs - n ≡ 0 = omega arith in rw e refl

-- With room, the line is a new entry.
abbrev roomy : History → List ℕ → History
roomy h s = record h { lines = update h.lines (index_of h h.count) s; count = h.count + 1 }

entries-roomy :
    (h : History) (s : List ℕ)
    → IsRing h
    → h.count < history_max
    → entries (roomy h s) ≡ entries h ++ s ∷ []
entries-roomy h s ring lt =
    let more : h.count + 1 ≡ suc h.count = omega arith in
    let same = entries_from-same h (roomy h s) 0 0 h.count (λ k k_lt.
      update_other h.lines (index_of h h.count) (index_of h (0 + k)) s
        (λ e. absurd (omega (arith, ring.head, e)))) in
    ap (entries_from (roomy h s) 0) more
    ∙ entries_from-snoc (roomy h s) 0 h.count
    ∙ ap₂ (λ (xs : List (List ℕ)) x. xs ++ x ∷ []) same
        (let at : 0 + h.count ≡ h.count = omega arith in
          ap (λ k. update h.lines (index_of h h.count) s (index_of h k)) at
          ∙ update_self h.lines (index_of h h.count) s)

-- In a full ring, it takes the place of the oldest one.
abbrev turned : History → List ℕ → History
turned h s = record h { lines = update h.lines h.head s; head = (h.head + 1) % history_max }

entries-turned :
    (h : History) (s : List ℕ) (n : ℕ)
    → h.head < history_max
    → suc n ≡ history_max
    → entries_from (turned h s) 0 (suc n) ≡ entries_from h 1 n ++ s ∷ []
entries-turned h s n lt full =
    let same = entries_from-same h (turned h s) 1 0 n (λ k k_lt.
      let turn : index_of (turned h s) (0 + k) ≡ index_of h (1 + k) = omega arith in
      ap (update h.lines h.head s) turn
      ∙ update_other h.lines h.head (index_of h (1 + k)) s (λ e. absurd (omega (arith, e)))) in
    let last : index_of (turned h s) (0 + n) ≡ h.head = omega arith in
    entries_from-snoc (turned h s) 0 n
    ∙ ap₂ (λ (xs : List (List ℕ)) x. xs ++ x ∷ []) same
        (ap (update h.lines h.head s) last ∙ update_self h.lines h.head s)

drop_oldest :
    (x : List ℕ) (xs : List (List ℕ)) (s : List ℕ)
    → suc (length xs) ≡ history_max
    → keep_last history_max (x ∷ xs ++ s ∷ []) ≡ xs ++ s ∷ []
drop_oldest x xs s full =
    let e : length (x ∷ xs ++ s ∷ []) - history_max ≡ 1 =
      omega (arith, length-append xs (s ∷ []), full) in
    rw e refl

-- The ring after a push: it is well formed, and its lines are what the specification says.
pub record IsPushed (h : History) (line : List ℕ) (h' : History) : Type 0 where
  pub ring : IsRing h'
  pub lines : entries h' ≡ pushed (entries h) line

roomy-IsPushed :
    (h : History) (c : ℕ) (line : List ℕ)
    → IsRing h
    → h.count < history_max
    → IsPushed h (c ∷ line) (roomy h (take (cmdline_max - 1) (c ∷ line)))
roomy-IsPushed h c line ring lt =
    let s = take (cmdline_max - 1) (c ∷ line) in
    let few : length (entries h ++ s ∷ []) ≤ history_max =
      omega (arith, length-append (entries h) (s ∷ []), length-entries_from h 0 h.count) in
    record {
      ring = record { head = ring.head; count = omega arith };
      lines = entries-roomy h s ring lt ∙ sym (keep_last-few history_max (entries h ++ s ∷ []) few);
    }

turned-IsPushed :
    (h : History) (c : ℕ) (line : List ℕ) (n : ℕ)
    → IsRing h
    → h.count ≡ suc n
    → suc n ≡ history_max
    → IsPushed h (c ∷ line) (turned h (take (cmdline_max - 1) (c ∷ line)))
turned-IsPushed h c line n ring count full =
    let s = take (cmdline_max - 1) (c ∷ line) in
    let rest = entries_from h 1 n in
    record {
      ring = record { head = omega arith; count = ring.count };
      lines =
          ap (entries_from (turned h s) 0) count
          ∙ entries-turned h s n ring.head full
          ∙ sym (
              drop_oldest (h.lines (index_of h 0)) rest s
                (omega (arith, length-entries_from h 1 n, full)))
          ∙ ap (λ k. keep_last history_max (entries_from h 0 k ++ s ∷ [])) (sym count);
    }

-- On a well-formed ring, `history_push` refines the list of lines, the oldest first: an empty line
-- changes nothing; another one, cut to 63 bytes, is added at the end, and if there are more than 64
-- then, the oldest one goes. The ring stays well formed.
pub history_push-IsPushed :
    (h : History) (line : List ℕ) → IsRing h → IsPushed h line (history_push h line)
unfolding history_push
history_push-IsPushed h [] ring = record { ring = ring; lines = refl }
history_push-IsPushed h (c ∷ line) ring =
    if-cases (IsPushed h (c ∷ line)) (ltb h.count history_max) _ _
      (λ room. roomy-IsPushed h c line ring (ltb→lt h.count history_max room))
      (λ full.
        let all = ltb-false→le h.count history_max full in
        turned-IsPushed h c line (h.count - 1) ring (omega (arith, ring.count))
          (omega (arith, ring.count)))

get_elem?-entries_from :
    (h : History) (i n k : ℕ)
    → k < n
    → get_elem? (entries_from h i n) k ≡ some (h.lines (index_of h (i + k)))
get_elem?-entries_from h i zero k lt = absurd (omega arith)
get_elem?-entries_from h i (suc n) zero lt =
    let same : i ≡ i + 0 = omega arith in ap (λ x. some (h.lines (index_of h x))) same
get_elem?-entries_from h i (suc n) (suc k) lt =
    let same : i + 1 + k ≡ i + suc k = omega arith in
    get_elem?-entries_from h (i + 1) n k (omega arith)
    ∙ ap (λ x. some (h.lines (index_of h x))) same
