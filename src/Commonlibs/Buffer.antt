-- ===== src/Commonlibs/Buffer.antt =====
-- `memset` and `memcpy` of src/lib/commonlibs.c. A block of memory is a function from the position to
-- the byte; the source and the destination of a copy are distinct objects.
use aqua_core.Prelude.{
  ℕ, zero, suc, ◌+◌, ◌-◌, ◌≡◌, ap, ◌&&◌, arith, ltb, leb, if◌then◌else◌, update,
}

-- `while (n--) *p++ = c`
unfoldable pub memset : (ℕ → ℕ) → ℕ → ℕ → ℕ → ℕ → ℕ
memset mem p c zero = mem
memset mem p c (suc n) = memset (update mem p c) (p + 1) c n

-- `while (n--) *d++ = *s++`
unfoldable pub memcpy : (ℕ → ℕ) → ℕ → (ℕ → ℕ) → ℕ → ℕ → ℕ → ℕ
memcpy mem d src s zero = mem
memcpy mem d src s (suc n) = memcpy (update mem d (src s)) (d + 1) src (s + 1) n

pub memset_lem :
    (mem : ℕ → ℕ) (p c n j : ℕ)
    → memset mem p c n j ≡ (if leb p j && ltb j (p + n) then c else mem j)
unfolding memset
memset_lem mem p c zero j = ground arith
memset_lem mem p c (suc n) j = ground (arith, memset_lem (update mem p c) (p + 1) c n j)

pub memcpy_lem :
    (mem : ℕ → ℕ) (d : ℕ) (src : ℕ → ℕ) (s n j : ℕ)
    → memcpy mem d src s n j ≡ (if leb d j && ltb j (d + n) then src (s + (j - d)) else mem j)
unfolding memcpy
memcpy_lem mem d src s zero j = ground arith
memcpy_lem mem d src s (suc n) j = ground (
  arith,
  memcpy_lem (update mem d (src s)) (d + 1) src (s + 1) n j,
  λ (e : s + 1 + (j - (d + 1)) ≡ s + (j - d)). ap src e,
)
