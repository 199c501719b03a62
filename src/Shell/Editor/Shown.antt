-- ===== src/Shell/Editor/Shown.antt =====
-- The line that `show_entry` of src/user/apps/shell/main.c leaves, for a string without a NUL.
use aqua_core.Prelude.{
  ℕ, zero, suc, ◌+◌, ◌-◌, ◌<◌, ◌≡◌, refl, ap, sym, ◌∙◌, ◌||◌, true, false, some, List, [], ◌∷◌,
  ◌++◌, arith, leb, ◌==◌, update, get_or, if-true, if-false, length, length-append, length-take,
  pos, take,
}
use aqua_core.Fs.Block.Image.{IsText}
use aqua_core.Shell.{cmdline_max}
use aqua_core.Shell.Arrays.{store, str_len}
use aqua_core.Shell.Complete.{Line}
use aqua_core.Shell.History.{History, index_of, history_get}
use aqua_core.Shell.History.Ring.{entries_from, entries, entries_from-snoc}
use aqua_core.Shell.Editor.{Editor, show_entry, fetched}

-- The line holds the string with its NUL, and the cursor is at the end.
pub record IsShowing (s : List ℕ) (l : Line) : Type 0 where
  pub len : l.len ≡ length s
  pub cursor : l.cursor ≡ length s
  pub bytes : (k : ℕ) → k < length s → l.cmdline k ≡ get_or s k 0
  pub nul : l.cmdline (length s) ≡ 0

pub store-before : (a : ℕ → ℕ) (i : ℕ) (s : List ℕ) (j : ℕ) → j < i → store a i s j ≡ a j
unfolding store
store-before a i [] j lt = ground arith
store-before a i (c ∷ s) j lt = ground (arith, store-before (update a i c) (i + 1) s j)

pub store-nul : (a : ℕ → ℕ) (i : ℕ) (s : List ℕ) → store a i s (i + length s) ≡ 0
unfolding store
store-nul a i [] = ground arith
store-nul a i (c ∷ s) =
    let e : i + suc (length s) ≡ i + 1 + length s = omega arith in
    ap (store (update a i c) (i + 1) s) e ∙ store-nul (update a i c) (i + 1) s

store-bytes :
    (a : ℕ → ℕ) (i : ℕ) (s : List ℕ) (k : ℕ) → k < length s → store a i s (i + k) ≡ get_or s k 0
unfolding store
store-bytes a i [] k lt = absurd (omega arith)
store-bytes a i (c ∷ s) zero lt =
    let e : i + 0 ≡ i = omega arith in
    ap (store (update a i c) (i + 1) s) e
    ∙ store-before (update a i c) (i + 1) s i (omega arith)
    ∙ ground arith
store-bytes a i (c ∷ s) (suc k) lt =
    let e : i + suc k ≡ i + 1 + k = omega arith in
    ap (store (update a i c) (i + 1) s) e ∙ store-bytes (update a i c) (i + 1) s k (omega arith)

-- `str_len` of an array that holds a string from the index i on.
str_len-text :
    (b : ℕ → ℕ) (n i : ℕ) (s : List ℕ)
    → IsText s
    → length s < n
    → ((k : ℕ) → k < length s → b (i + k) ≡ get_or s k 0)
    → b (i + length s) ≡ 0
    → str_len b n i ≡ i + length s
unfolding str_len
str_len-text b zero i s text lt held nul = absurd (omega arith)
str_len-text b (suc n) i [] text lt held nul =
    let e : i + 0 ≡ i = omega arith in
    let here : (b i == 0) ≡ true = ground (arith, ap b e, nul) in if-true _ _ here ∙ omega arith
str_len-text b (suc n) i (c ∷ s) (ne, text) lt held nul =
    let e : i + 0 ≡ i = omega arith in
    let first : b i ≡ c = sym (ap b e) ∙ held 0 (omega arith) in
    let live : (b i == 0) ≡ false = ground (arith, first, ne) in
    let end : i + 1 + length s ≡ i + suc (length s) = omega arith in
    if-false _ _ live
    ∙ str_len-text b n (i + 1) s text (omega arith)
        (λ k less.
          let at : i + 1 + k ≡ i + suc k = omega arith in ap b at ∙ held (suc k) (omega arith))
        (ap b end ∙ nul)
    ∙ end

IsText-take : (n : ℕ) (s : List ℕ) → IsText s → IsText (take n s)
IsText-take zero s text = tt
IsText-take (suc n) [] text = tt
IsText-take (suc n) (c ∷ s) (ne, text) = (ne, IsText-take n s text)

pub history_get-some :
    (h : History) (i : ℕ)
    → i < h.count
    → history_get h (pos i) cmdline_max ≡ some (take (cmdline_max - 1) (h.lines (index_of h i)))
unfolding history_get
history_get-some h i lt =
    let present : (cmdline_max == 0 || leb h.count i) ≡ false = ground arith in if-false _ _ present

pub show_entry-IsShowing :
    (h : History) (e : Editor) (i : ℕ)
    → i < h.count
    → IsText (h.lines (index_of h i))
    → IsShowing (take (cmdline_max - 1) (h.lines (index_of h i))) (show_entry h e (pos i)).line
unfolding show_entry
show_entry-IsShowing h e i lt text =
    let s = take (cmdline_max - 1) (h.lines (index_of h i)) in
    let b = store e.line.cmdline 0 s in
    let got : fetched e.line.cmdline (history_get h (pos i) cmdline_max) ≡ b =
      ap (fetched e.line.cmdline) (history_get-some h i lt) in
    let held : (k : ℕ) → k < length s → b k ≡ get_or s k 0 = λ k less.
      let at : k ≡ 0 + k = omega arith in ap b at ∙ store-bytes e.line.cmdline 0 s k less in
    let end : length s ≡ 0 + length s = omega arith in
    let nul : b (length s) ≡ 0 = ap b end ∙ store-nul e.line.cmdline 0 s in
    let size : str_len b cmdline_max 0 ≡ length s =
      str_len-text b cmdline_max 0 s (IsText-take (cmdline_max - 1) _ text)
        (omega (arith, length-take (cmdline_max - 1) (h.lines (index_of h i))))
        (λ k less. let at : 0 + k ≡ k = omega arith in ap b at ∙ held k less) (ap b (sym end) ∙ nul)
      ∙ sym end in
    let len = ap (λ a. str_len a cmdline_max 0) got ∙ size in
    record {
      len = len;
      cursor = len;
      bytes = λ k less. ap (λ a. a k) got ∙ held k less;
      nul = ap (λ a. a (length s)) got ∙ nul;
    }

abbrev last {ℓ} : {A : Type ℓ} → A → List A → A
last d [] = d
last d (x ∷ xs) = last x xs

last-snoc {ℓ} : {A : Type ℓ} (d : A) (xs : List A) (y : A) → last d (xs ++ y ∷ []) ≡ y
last-snoc d [] y = refl
last-snoc d (x ∷ xs) y = last-snoc x xs y

-- The last one of n entries.
newest_of :
    (h : History) (n : ℕ) (before : List (List ℕ)) (newest : List ℕ)
    → entries_from h 0 n ≡ before ++ newest ∷ []
    → (0 < n) × (h.lines (index_of h (n - 1)) ≡ newest)
newest_of h zero before newest e =
    absurd (omega (arith, ap length e, length-append before (newest ∷ [])))
newest_of h (suc n) before newest e =
    let at : suc n - 1 ≡ 0 + n = omega arith in
    (
      omega arith,
      ap (λ k. h.lines (index_of h k)) at
          ∙ sym (last-snoc [] (entries_from h 0 n) (h.lines (index_of h (0 + n))))
          ∙ ap (last []) (sym (entries_from-snoc h 0 n) ∙ e)
          ∙ last-snoc [] before newest,
    )

pub newest_entry :
    (h : History) (before : List (List ℕ)) (newest : List ℕ)
    → entries h ≡ before ++ newest ∷ []
    → (0 < h.count) × (h.lines (index_of h (h.count - 1)) ≡ newest)
newest_entry h before newest e = newest_of h h.count before newest e
