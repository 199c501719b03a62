-- ===== src/Commonlibs/Text/Decimal.antt =====
-- What the appending functions of src/lib/commonlibs.c print, and when they have room for it.
use mathlib.Core.List.{reverse, reverse-append, append_assoc, append-nil}
use native.Mathlib.Nat.{pow-suc}
use aqua_core.Prelude.{
  ℕ, zero, suc, ◌+◌, ◌-◌, ◌*◌, ◌/◌, ◌%◌, ◌^◌, ◌≤◌, ◌<◌, ◌≡◌, refl, ap, sym, subst, ◌∙◌, Option,
  none, some, List, [], ◌∷◌, ◌++◌, arith, ltb, leb, ◌==◌, if◌then◌else◌, length, length-append,
  Bool, not, ◌&&◌, ◌||◌, &&-true, Bool-cases, inl, inr, true, false, if-cases, ltb→lt, ltb-false→le,
}
use aqua_core.Commonlibs.Text.{append_char, append_str, low_digits, append_u32}

-- `append_str` appends the whole string where it fits with its NUL, and fails otherwise.
pub append_str_lem :
    (size : ℕ) (out s : List ℕ)
    → length out < size
    → append_str size out s ≡ (if ltb (length out + length s) size then some (out ++ s) else none)
unfolding append_str append_char
append_str_lem size out [] h =
    let fits : ltb (length out + 0) size ≡ true = ground arith in rw (fits, append-nil)
append_str_lem size out (c ∷ s) h = elim (Bool-cases (leb size (length out + 1))) [
  | inl full ↦
      let over : ltb (length out + suc (length s)) size ≡ false = ground arith in
      rw (full, append_str, over)
  | inr room ↦
      let one = length-append out (c ∷ []) in
      let rest = append_str_lem size (out ++ c ∷ []) s (ground (arith, one)) in
      let same : length (out ++ c ∷ []) + length s ≡ length out + suc (length s) =
        omega (arith, one) in
      rw (room, append_str) (rest ∙ rw (same, append_assoc) refl)
]

-- The number that a string of decimal digits stands for.
abbrev pub decimal_value : ℕ → List ℕ → ℕ
decimal_value acc [] = acc
decimal_value acc (c ∷ s) = decimal_value (acc * 10 + (c - b'0')) s

decimal_value-append :
    (acc : ℕ) (xs ys : List ℕ)
    → decimal_value acc (xs ++ ys) ≡ decimal_value (decimal_value acc xs) ys
decimal_value-append acc [] ys = refl
decimal_value-append acc (x ∷ xs) ys = decimal_value-append (acc * 10 + (x - b'0')) xs ys

abbrev pub is_digit : ℕ → Bool
is_digit c = not (ltb c b'0' || ltb b'9' c)

abbrev pub all_digits : List ℕ → Bool
all_digits [] = true
all_digits (c ∷ s) = is_digit c && all_digits s

-- A decimal text: one digit at least, and nothing else.
abbrev pub is_number : List ℕ → Bool
is_number [] = false
is_number (c ∷ s) = all_digits (c ∷ s)

all_digits-append :
    (xs ys : List ℕ) → all_digits xs ≡ true → all_digits ys ≡ true → all_digits (xs ++ ys) ≡ true
all_digits-append [] ys h k = k
all_digits-append (x ∷ xs) ys h k =
    let (digit, rest) = &&-true (is_digit x) (all_digits xs) h in
    rw (digit, all_digits-append xs ys rest k) refl

digit_is_digit : (v : ℕ) → is_digit (b'0' + v % 10) ≡ true
digit_is_digit v = ground arith

all_digits-low_digits : (room v : ℕ) → all_digits (reverse (low_digits room v)) ≡ true
unfolding low_digits
all_digits-low_digits zero v = refl
all_digits-low_digits (suc room) v = elim (Bool-cases (v == 0)) [
  | inl z ↦ rw z refl
  | inr more ↦ rw more (
      ap all_digits (reverse-append ((b'0' + v % 10) ∷ []) (low_digits room (v / 10)))
      ∙ all_digits-append (reverse (low_digits room (v / 10))) ((b'0' + v % 10) ∷ [])
          (all_digits-low_digits room (v / 10)) (ap (λ b. b && true) (digit_is_digit v)))
]

digits_are_number :
    (s : List ℕ) (v : ℕ)
    → all_digits s ≡ true
    → decimal_value 0 s ≡ v
    → (v == 0) ≡ false
    → is_number s ≡ true
digits_are_number [] v h e ne = ground arith
digits_are_number (c ∷ s) v h e ne = h

-- What `append_u32` prints: the digits of v, the highest first.
abbrev pub u32_text : ℕ → List ℕ
u32_text v = if v == 0 then b'0' ∷ [] else reverse (low_digits 10 v)

decimal_value-low_digits :
    (room v : ℕ) → v < 10 ^ room → decimal_value 0 (reverse (low_digits room v)) ≡ v
unfolding low_digits
decimal_value-low_digits zero v h = omega arith
decimal_value-low_digits (suc room) v h = elim (Bool-cases (v == 0)) [
  | inl z ↦ rw z (ground arith)
  | inr more ↦
      let digit = b'0' + v % 10 in
      let high = decimal_value-low_digits room (v / 10) (omega (arith, pow-suc 10 room)) in
      rw (more, low_digits)
        (ap (decimal_value 0) (reverse-append (digit ∷ []) (low_digits room (v / 10)))
          ∙ decimal_value-append 0 (reverse (low_digits room (v / 10))) (digit ∷ [])
          ∙ rw high (omega arith))
]

-- A digit that is not 0 comes first, unless the text is the digit 0.
abbrev pub no_zero_ahead : List ℕ → Bool
no_zero_ahead [] = false
no_zero_ahead (c ∷ []) = true
no_zero_ahead (c ∷ d ∷ s) = not (c == b'0')

no_zero_ahead-append :
    (xs : List ℕ) (y : ℕ)
    → no_zero_ahead xs ≡ true
    → 0 < decimal_value 0 xs
    → no_zero_ahead (xs ++ y ∷ []) ≡ true
no_zero_ahead-append [] y h lt = cc
no_zero_ahead-append (c ∷ []) y h lt = ground arith
no_zero_ahead-append (c ∷ d ∷ s) y h lt = h

low_digits-zero : (room v : ℕ) → (v == 0) ≡ true → low_digits room v ≡ []
unfolding low_digits
low_digits-zero zero v z = refl
low_digits-zero (suc room) v z = rw z refl

no_zero_ahead-low_digits :
    (room v : ℕ)
    → v < 10 ^ room
    → (v == 0) ≡ false
    → no_zero_ahead (reverse (low_digits room v)) ≡ true
unfolding low_digits
no_zero_ahead-low_digits zero v h ne = absurd (ground (arith, ne))
no_zero_ahead-low_digits (suc room) v h ne =
    let high = v / 10 in
    let small : high < 10 ^ room = omega (arith, pow-suc 10 room) in
    elim (Bool-cases (high == 0)) [
      | inl z ↦ rw (ne, low_digits-zero room high z) refl
      | inr more ↦ rw ne (
          ap no_zero_ahead (reverse-append ((b'0' + v % 10) ∷ []) (low_digits room high))
          ∙ no_zero_ahead-append (reverse (low_digits room high)) (b'0' + v % 10)
              (no_zero_ahead-low_digits room high small more)
              (ground (arith, decimal_value-low_digits room high small, more)))
    ]

length-low_digits : (room v : ℕ) → length (low_digits room v) ≤ room
unfolding low_digits
length-low_digits zero v = omega arith
length-low_digits (suc room) v = ground (arith, length-low_digits room (v / 10))

length-reverse : (xs : List ℕ) → length (reverse xs) ≡ length xs
length-reverse [] = refl
length-reverse (x ∷ xs) =
    ap length (reverse-append (x ∷ []) xs)
    ∙ omega (arith, length-append (reverse xs) (x ∷ []), length-reverse xs)

-- The text of a 32-bit number has 1 to 10 digits and nothing else, no digit 0 ahead of others, and
-- reads back as the number.
pub record IsDecimal (v : ℕ) (text : List ℕ) : Type 0 where
  pub digits : is_number text ≡ true
  pub leading : no_zero_ahead text ≡ true
  pub value : decimal_value 0 text ≡ v
  pub short : length text ≤ 10

pub u32_text-IsDecimal : (v : ℕ) → v < 2 ^ 32 → IsDecimal v (u32_text v)
u32_text-IsDecimal v h = elim (Bool-cases (v == 0)) [
  | inl z ↦
      rw z (record { digits = refl; leading = refl; value = ground arith; short = omega arith })
  | inr more ↦ rw more (record {
    digits =
        digits_are_number (reverse (low_digits 10 v)) v (all_digits-low_digits 10 v)
          (decimal_value-low_digits 10 v (omega arith)) more;
    leading = no_zero_ahead-low_digits 10 v (omega arith) more;
    value = decimal_value-low_digits 10 v (omega arith);
    short = omega (arith, length-reverse (low_digits 10 v), length-low_digits 10 v);
  })
]

pub append_u32-text :
    (size : ℕ) (out : List ℕ) (v : ℕ)
    → length out < size
    → append_u32 size out v
      ≡ (if ltb (length out + length (u32_text v)) size then some (out ++ u32_text v) else none)
unfolding append_u32 append_char
append_u32-text size out v h = elim (Bool-cases (v == 0)) [
  | inl z ↦ rw z (ground arith)
  | inr more ↦ rw more (append_str_lem size out (reverse (low_digits 10 v)) h)
]

-- What `append_u32` may return for v.
pub data Prints (size : ℕ) (out : List ℕ) (v : ℕ) : Option (List ℕ) → Type 0 where
  printed :
      (text : List ℕ)
      → IsDecimal v text
      → length out + length text < size
      → Prints size out v (some (out ++ text))
  too_long :
      (text : List ℕ) → IsDecimal v text → size ≤ length out + length text → Prints size out v none

-- In an array with room for what is in it and a NUL, `append_u32` appends one to ten decimal digits,
-- with no digit 0 ahead of others, that read back as the 32-bit number, when they fit with their NUL,
-- and fails otherwise.
pub append_u32_lem :
    (size : ℕ) (out : List ℕ) (v : ℕ)
    → length out < size
    → v < 2 ^ 32
    → Prints size out v (append_u32 size out v)
append_u32_lem size out v room small =
    let text = u32_text v in
    let decimal = u32_text-IsDecimal v small in
    subst (Prints size out v) (sym (append_u32-text size out v room)) (
      if-cases (Prints size out v) (ltb (length out + length text) size) (some (out ++ text)) none
        (λ e. printed text decimal (ltb→lt (length out + length text) size e))
        (λ e. too_long text decimal (ltb-false→le (length out + length text) size e)))
