-- ===== src/Prelude/Bytes.antt =====
-- Words of the RISC-V target: `uint32_t` arithmetic, with its wrap written out.
use Prim.Native.Nat.{ℕ, ◌+◌, ◌-◌, ◌*◌, ◌%◌, ◌^◌}

abbrev pub u32 : ℕ
u32 = 2 ^ 32

abbrev pub add32 : ℕ → ℕ → ℕ
add32 a b = (a + b) % u32

abbrev pub sub32 : ℕ → ℕ → ℕ
sub32 a b = (a + u32 - b) % u32

abbrev pub mul32 : ℕ → ℕ → ℕ
mul32 a b = (a * b) % u32
