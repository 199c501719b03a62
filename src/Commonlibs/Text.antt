-- ===== src/Commonlibs/Text.antt =====
-- Strings in src/lib/commonlibs.c, and the text that `append_char`, `append_str` and `append_u32`
-- build there and in src/kernel/proc/process.c. A C string is the list of its bytes before the NUL;
-- `size` is the size of the array that it is built in, and *pos is its length.
pub mod Decimal
pub mod Copying
use Prim.Native.Char.{code}
use Prim.Native.String.{String}
use mathlib.Core.List.{reverse}
use aqua_core.Prelude.{
  ℕ, zero, suc, ◌+◌, ◌-◌, ◌/◌, ◌%◌, Option, none, some, List, [], ◌∷◌, ◌++◌, leb, ◌==◌,
  if◌then◌else◌, length, take, ◌>>=◌,
}

-- The bytes of a string literal.
abbrev pub codes : String → List ℕ
codes String.[] = []
codes (String.◌∷◌ c s) = code c ∷ codes s

-- The copying loop of `strcpy_s` and `strcat_s`, with `remain` bytes of room.
unfoldable pub copy_up_to : ℕ → List ℕ → List ℕ
copy_up_to zero src = []
copy_up_to (suc remain) [] = []
copy_up_to (suc remain) (c ∷ src) = c ∷ copy_up_to remain src

unfoldable pub strcpy_s : List ℕ → ℕ → List ℕ → List ℕ
strcpy_s dst zero src = dst
strcpy_s dst (suc n) src = copy_up_to n src

-- A destination with no NUL in its n bytes is cut off.
unfoldable pub strcat_s : List ℕ → ℕ → List ℕ → List ℕ
strcat_s dst zero src = dst
strcat_s dst (suc n) src =
    if leb (suc n) (length dst) then take n dst else dst ++ copy_up_to (n - length dst) src

-- none is -1.
unfoldable pub append_char : ℕ → List ℕ → ℕ → Option (List ℕ)
append_char size out c = if leb size (length out + 1) then none else some (out ++ c ∷ [])

unfoldable pub append_str : ℕ → List ℕ → List ℕ → Option (List ℕ)
append_str size out [] = some out
append_str size out (c ∷ s) = append_char size out c >>= λ out'. append_str size out' s

-- The array `tmp`: the digits from the lowest on, 10 at most.
unfoldable pub low_digits : ℕ → ℕ → List ℕ
low_digits zero v = []
low_digits (suc room) v = if v == 0 then [] else (b'0' + v % 10) ∷ low_digits room (v / 10)

unfoldable pub append_u32 : ℕ → List ℕ → ℕ → Option (List ℕ)
append_u32 size out v =
    if v == 0 then append_char size out b'0' else append_str size out (reverse (low_digits 10 v))
