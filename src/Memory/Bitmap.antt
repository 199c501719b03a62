-- ===== src/Memory/Bitmap.antt =====
-- The bitmap of src/kernel/mm/memory.c is a set of page numbers: each operation on the bytes, in terms
-- of `bitmap_test`.
use aqua_core.Prelude.{
  ℕ, ◌-◌, ◌/◌, ◌%◌, ◌^◌, ◌<◌, bit_and, bit_or, ◌≡◌, refl, Bool, true, false, ◌&&◌, ◌||◌, not, arith,
  ltb, ◌==◌, holds_below, holds_below→eq, &&-true, ltb→lt,
}
use aqua_core.Memory.{bitmap_test, bitmap_set, bitmap_clear}

abbrev pub AreBytes : (ℕ → ℕ) → Type 0
AreBytes bitmap = (i : ℕ) → bitmap i < 256

abbrev eq_bool : Bool → Bool → Bool
eq_bool true b = b
eq_bool false b = not b

eq_bool→eq : (a b : Bool) → eq_bool a b ≡ true → a ≡ b
eq_bool→eq true b h = ground arith
eq_bool→eq false b h = ground arith

abbrev bit : ℕ → ℕ → Bool
bit b j = bit_and (b / 2 ^ j) 1 == 1

set_table :
    holds_below
      (λ b.
        holds_below
          (λ k. holds_below (λ j. eq_bool (bit (bit_or b (2 ^ k)) j) (k == j || bit b j)) 8)
          8)
      256
    ≡ true
unfolding holds_below
set_table = refl

clear_table :
    holds_below
      (λ b.
        holds_below
          (λ k.
            holds_below
              (λ j. eq_bool (bit (bit_and b (255 - 2 ^ k)) j) (not (k == j) && bit b j))
              8)
          8)
      256
    ≡ true
unfolding holds_below
clear_table = refl

range_table :
    holds_below
      (λ b. holds_below (λ k. ltb (bit_or b (2 ^ k)) 256 && ltb (bit_and b (255 - 2 ^ k)) 256) 8)
      256
    ≡ true
unfolding holds_below
range_table = refl

bit_set : (b k j : ℕ) → b < 256 → k < 8 → j < 8 → bit (bit_or b (2 ^ k)) j ≡ (k == j || bit b j)
bit_set b k j hb hk hj =
    eq_bool→eq _ _
      (holds_below→eq _ 8 j (holds_below→eq _ 8 k (holds_below→eq _ 256 b set_table hb) hk) hj)

bit_clear :
    (b k j : ℕ)
    → b < 256
    → k < 8
    → j < 8
    → bit (bit_and b (255 - 2 ^ k)) j ≡ (not (k == j) && bit b j)
bit_clear b k j hb hk hj =
    eq_bool→eq _ _
      (holds_below→eq _ 8 j (holds_below→eq _ 8 k (holds_below→eq _ 256 b clear_table hb) hk) hj)

pub bitmap_test-set :
    (bitmap : ℕ → ℕ) (i j : ℕ)
    → AreBytes bitmap
    → bitmap_test (bitmap_set bitmap i) j ≡ (i == j || bitmap_test bitmap j)
unfolding bitmap_test bitmap_set
bitmap_test-set bitmap i j h =
    ground (arith, bit_set (bitmap (j / 8)) (i % 8) (j % 8) (h (j / 8)) (omega arith) (omega arith))

pub bitmap_test-clear :
    (bitmap : ℕ → ℕ) (i j : ℕ)
    → AreBytes bitmap
    → bitmap_test (bitmap_clear bitmap i) j ≡ (not (i == j) && bitmap_test bitmap j)
unfolding bitmap_test bitmap_clear
bitmap_test-clear bitmap i j h =
    ground
      (arith, bit_clear (bitmap (j / 8)) (i % 8) (j % 8) (h (j / 8)) (omega arith) (omega arith))

byte_range :
    (b k : ℕ) → b < 256 → k < 8 → (bit_or b (2 ^ k) < 256) × (bit_and b (255 - 2 ^ k) < 256)
byte_range b k hb hk =
    let checked = holds_below→eq _ 8 k (holds_below→eq _ 256 b range_table hb) hk in
    let (p, q) = &&-true (ltb (bit_or b (2 ^ k)) 256) (ltb (bit_and b (255 - 2 ^ k)) 256) checked in
    (ltb→lt _ _ p, ltb→lt _ _ q)

pub AreBytes-set : (bitmap : ℕ → ℕ) (i : ℕ) → AreBytes bitmap → AreBytes (bitmap_set bitmap i)
unfolding bitmap_set
AreBytes-set bitmap i h j =
    ground (arith, h j, byte_range (bitmap (i / 8)) (i % 8) (h (i / 8)) (omega arith))

pub AreBytes-clear : (bitmap : ℕ → ℕ) (i : ℕ) → AreBytes bitmap → AreBytes (bitmap_clear bitmap i)
unfolding bitmap_clear
AreBytes-clear bitmap i h j =
    ground (arith, h j, byte_range (bitmap (i / 8)) (i % 8) (h (i / 8)) (omega arith))
