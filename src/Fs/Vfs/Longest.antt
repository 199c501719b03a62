-- ===== src/Fs/Vfs/Longest.antt =====
-- `vfs_resolve_mount` of src/kernel/fs/fs.c takes the mount with the longest path that matches.
use aqua_core.Prelude.{
  ℕ, zero, suc, ◌+◌, ◌≤◌, ◌<◌, ◌≡◌, subst, ◌&&◌, Option, some, none, List, arith, ltb,
  if◌then◌else◌, Bool-cases, inl, inr,
}
use native.Mathlib.Decide.{ℕ_discrete}
use aqua_core.Fs.Vfs.Matching.{Matches, Passes, Passes-Matches, Matches-Passes}
use aqua_core.Fs.Vfs.{Mount, mount_max, vfs_match_mount, is_longer, best_mount}

-- Mount b matches, and no mount below index i that matches has a longer path.
pub record IsBest (M : ℕ → Type 0) (mounts : ℕ → Mount) (i b : ℕ) : Type 0 where
  pub low : b < i
  pub matching : M b
  pub longest : (k : ℕ) → k < i → M k → (mounts k).path_len ≤ (mounts b).path_len

-- The best mount below index i, or none when no mount matches there.
abbrev pub BestOf : (ℕ → Type 0) → (ℕ → Mount) → ℕ → Option ℕ → Type 0
BestOf M mounts i none = (k : ℕ) → k < i → ¬ M k
BestOf M mounts i (some b) = IsBest M mounts i b

BestOf-same :
    (M N : ℕ → Type 0) (mounts : ℕ → Mount) (i : ℕ) (best : Option ℕ)
    → ((k : ℕ) → M k → N k)
    → ((k : ℕ) → N k → M k)
    → BestOf M mounts i best
    → BestOf N mounts i best
BestOf-same M N mounts i none to from h = λ k lt n. h k lt (from k n)
BestOf-same M N mounts i (some b) to from h = record {
  low = h.low;
  matching = to b h.matching;
  longest = λ k lt n. h.longest k lt (from k n);
}

module _ (mounts : ℕ → Mount) (path : List ℕ) (i : ℕ) where
  abbrev better : Option ℕ → Option ℕ
  better best =
      if (mounts i).used && vfs_match_mount (mounts i) path && is_longer mounts best i
      then some i
      else best

  BestOf-better :
      (best : Option ℕ)
      → BestOf (Passes mounts path) mounts i best
      → BestOf (Passes mounts path) mounts (i + 1) (better best)
  BestOf-better none h = elim (Bool-cases ((mounts i).used && vfs_match_mount (mounts i) path)) [
    | inl e ↦ rw e (record {
      low = omega arith;
      matching = e;
      longest = λ k lt m. elim (ℕ_discrete k i) [
        | yes same ↦ rw same (omega arith)
        | no other ↦ absurd (h k (omega arith) m)
      ];
    })
    | inr e ↦ rw e (λ k lt m. elim (ℕ_discrete k i) [
      | yes same ↦ cc (subst (λ n. Passes mounts path n) same m)
      | no other ↦ h k (omega arith) m
    ])
  ]
  BestOf-better (some b) h =
      elim (Bool-cases ((mounts i).used && vfs_match_mount (mounts i) path)) [
        | inr e ↦ rw e (record {
          low = omega (arith, h.low);
          matching = h.matching;
          longest = λ k lt m. elim (ℕ_discrete k i) [
            | yes same ↦ cc (subst (λ n. Passes mounts path n) same m)
            | no other ↦ h.longest k (omega arith) m
          ];
        })
        | inl e ↦ elim (Bool-cases (ltb (mounts b).path_len (mounts i).path_len)) [
          | inl l ↦
              rw (e, l)
                (record {
                  low = omega arith;
                  matching = e;
                  longest = λ k lt m. elim (ℕ_discrete k i) [
                    | yes same ↦ rw same (omega arith)
                    | no other ↦ ground (arith, h.longest k (omega arith) m)
                  ];
                })
          | inr l ↦
              rw (e, l)
                (record {
                  low = omega (arith, h.low);
                  matching = h.matching;
                  longest = λ k lt m. elim (ℕ_discrete k i) [
                    | yes same ↦ ground arith
                    | no other ↦ h.longest k (omega arith) m
                  ];
                })
        ]
      ]

best_mount-BestOf :
    (mounts : ℕ → Mount) (path : List ℕ) (n i : ℕ) (best : Option ℕ)
    → BestOf (Passes mounts path) mounts i best
    → BestOf (Passes mounts path) mounts (i + n) (best_mount mounts path n i best)
unfolding best_mount
best_mount-BestOf mounts path zero i best h =
    let at : i ≡ i + 0 = omega arith in subst (λ m. BestOf (Passes mounts path) mounts m best) at h
best_mount-BestOf mounts path (suc n) i best h =
    subst (λ m. BestOf (Passes mounts path) mounts m (best_mount mounts path (suc n) i best))
      (omega arith)
      (best_mount-BestOf mounts path n (i + 1) (better mounts path i best)
        (BestOf-better mounts path i best h))

-- The mount that the loop of `vfs_resolve_mount` chooses is in use, and is that of the root or has a
-- path that is the given one up to a component's end; no other such mount has a longer path. When the
-- loop chooses none, there is no such mount.
pub best_mount_lem :
    (mounts : ℕ → Mount) (path : List ℕ)
    → BestOf (Matches mounts path) mounts mount_max (best_mount mounts path mount_max 0 none)
best_mount_lem mounts path =
    BestOf-same (Passes mounts path) (Matches mounts path) mounts mount_max _
      (λ k. Passes-Matches mounts path k) (λ k. Matches-Passes mounts path k)
      (best_mount-BestOf mounts path mount_max 0 none (λ k lt m. absurd (omega arith)))
