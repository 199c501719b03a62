-- ===== src/Memory/Scan.antt =====
-- The search loop of `alloc_pages` finds the lowest run of free pages that is long enough.
use aqua_core.Prelude.{
  ℕ, zero, suc, ◌+◌, ◌-◌, ◌≤◌, ◌<◌, ◌≡◌, refl, true, false, Option, none, some, ◌⊎◌, inl, inr,
  arith, Bool-cases, sym, subst, ap, ◌∙◌, ◌≢◌,
}
use native.Mathlib.Decide.{ℕ_discrete}
use aqua_core.Memory.{bitmap_test, scan}

-- The n pages from s on are free.
abbrev pub IsFreeRun : (ℕ → ℕ) → ℕ → ℕ → Type 0
IsFreeRun bitmap s n = (j : ℕ) → s ≤ j → j < s + n → bitmap_test bitmap j ≡ false

-- What the search promises over the first m pages.
abbrev pub Found : (ℕ → ℕ) → ℕ → ℕ → Option ℕ → Type 0
Found bitmap n m none = (s : ℕ) → s + n ≤ m → ¬ IsFreeRun bitmap s n
Found bitmap n m (some s) =
    (s + n ≤ m) × IsFreeRun bitmap s n × ((t : ℕ) → t < s → ¬ IsFreeRun bitmap t n)

-- The loop's invariant before page i: the `run` pages from b on are free, the page before them is
-- not, and no long enough run ends by i.
record Scanning (bitmap : ℕ → ℕ) (n i run b : ℕ) : Type 0 where
  here : b + run ≡ i
  short : run < n
  free : IsFreeRun bitmap b run
  edge : (b ≡ 0) ⊎ ((c : ℕ) × (b ≡ suc c) × (bitmap_test bitmap c ≡ true))
  none_before : (s : ℕ) → s + n ≤ i → ¬ IsFreeRun bitmap s n

-- Any long enough run that ends with page i starts with the current one.
start_unique :
    (bitmap : ℕ → ℕ) (n i run b s : ℕ)
    → Scanning bitmap n i run b
    → s + n ≡ i + 1
    → IsFreeRun bitmap s n
    → b ≤ s
start_unique bitmap n i run b s h e f = elim h.edge [
  | inl z ↦ omega arith
  | inr (c, bc, used) ↦ ground (arith, h.here, h.short, f c)
]

module _ (bitmap : ℕ → ℕ) (n rounds i run : ℕ) where
  scan_used :
      bitmap_test bitmap i ≡ true
      → scan bitmap n (suc rounds) i run ≡ scan bitmap n rounds (i + 1) 0
  unfolding scan
  scan_used e = ground arith

  scan_done :
      bitmap_test bitmap i ≡ false
      → run + 1 ≡ n
      → scan bitmap n (suc rounds) i run ≡ some (i + 1 - n)
  unfolding scan
  scan_done e f = ground arith

  scan_more :
      bitmap_test bitmap i ≡ false
      → run + 1 ≢ n
      → scan bitmap n (suc rounds) i run ≡ scan bitmap n rounds (i + 1) (run + 1)
  unfolding scan
  scan_more e f = ground arith

module _ (bitmap : ℕ → ℕ) (n i run b : ℕ) (h : Scanning bitmap n i run b) where
  none_through_used : bitmap_test bitmap i ≡ true → (s : ℕ) → s + n ≤ i + 1 → ¬ IsFreeRun bitmap s n
  none_through_used used s le f = ground (arith, h.none_before s, h.short, f i, f)

  free_extends : bitmap_test bitmap i ≡ false → IsFreeRun bitmap b (run + 1)
  free_extends e j lo hi = elim (ℕ_discrete j i) [
    | yes same ↦ rw same e
    | no other ↦ h.free j lo (omega (arith, h.here))
  ]

  none_through_short : run + 1 ≢ n → (s : ℕ) → s + n ≤ i + 1 → ¬ IsFreeRun bitmap s n
  none_through_short ne s le f = elim (ℕ_discrete (s + n) (i + 1)) [
    | yes ends ↦ omega (arith, start_unique bitmap n i run b s h ends f, h.here, h.short)
    | no before ↦ h.none_before s (omega arith) f
  ]

  after_used : bitmap_test bitmap i ≡ true → Scanning bitmap n (i + 1) 0 (i + 1)
  after_used used = record {
    here = omega arith;
    short = omega (arith, h.short);
    free = λ j lo hi. absurd (omega arith);
    edge = inr (i, omega arith, used);
    none_before = none_through_used used;
  }

  after_free : bitmap_test bitmap i ≡ false → run + 1 ≢ n → Scanning bitmap n (i + 1) (run + 1) b
  after_free e ne = record {
    here = omega (arith, h.here);
    short = omega (arith, h.short);
    free = free_extends e;
    edge = h.edge;
    none_before = none_through_short ne;
  }

  Found-here :
      (m : ℕ) → i < m → bitmap_test bitmap i ≡ false → run + 1 ≡ n → Found bitmap n m (some b)
  Found-here m lt e full = (
    omega (arith, h.here),
    (λ j lo hi. free_extends e j lo (omega (arith, h.here))),
    (λ t below. h.none_before t (omega (arith, h.here))),
  )

scan-Found_from :
    (bitmap : ℕ → ℕ) (n m rounds i run b : ℕ)
    → i + rounds ≡ m
    → Scanning bitmap n i run b
    → Found bitmap n m (scan bitmap n rounds i run)
unfolding scan
scan-Found_from bitmap n m zero i run b e h = λ s le. h.none_before s (omega arith)
scan-Found_from bitmap n m (suc rounds) i run b e h = elim (Bool-cases (bitmap_test bitmap i)) [
  | inl used ↦ subst (Found bitmap n m) (sym (scan_used bitmap n rounds i run used)) (
      scan-Found_from bitmap n m rounds (i + 1) 0 (i + 1) (omega arith)
        (after_used bitmap n i run b h used))
  | inr free ↦ elim (ℕ_discrete (run + 1) n) [
    | yes full ↦
        subst (Found bitmap n m)
          (sym (scan_done bitmap n rounds i run free full ∙ ap some (omega (arith, h.here))))
          (Found-here bitmap n i run b h m (omega arith) free full)
    | no more ↦ subst (Found bitmap n m) (sym (scan_more bitmap n rounds i run free more)) (
        scan-Found_from bitmap n m rounds (i + 1) (run + 1) b (omega arith)
          (after_free bitmap n i run b h free more))
  ]
]

-- The whole search, from the first page.
pub scan-Found : (bitmap : ℕ → ℕ) (n m : ℕ) → 0 < n → Found bitmap n m (scan bitmap n m 0 0)
scan-Found bitmap n m h = scan-Found_from bitmap n m m 0 0 0 (omega arith) (record {
  here = omega arith;
  short = h;
  free = λ j lo hi. absurd (omega arith);
  edge = inl refl;
  none_before = λ s le f. omega arith;
})
