-- ===== src/Shell/Args/Number.antt =====
-- `parse_int` of src/user/apps/shell/utils.c against the numbers that decimal texts stand for.
use aqua_core.Prelude.{
  ℕ, ◌+◌, ◌-◌, ◌*◌, ◌%◌, ◌^◌, ◌<◌, ◌≡◌, refl, ap, ◌∙◌, true, ◌||◌, none, some, List, [], ◌∷◌, arith,
  ltb, if◌then◌else◌, u32, Bool-cases, inl, inr, if-true, lt→ltb, length, ◌≤◌, ◌>>=◌,
}
use aqua_core.Commonlibs.Text.{append_u32}
use aqua_core.Commonlibs.Text.Decimal.{
  all_digits, is_number, decimal_value, u32_text, u32_text-IsDecimal, append_u32-text,
}
use aqua_core.Shell.Args.{parse_digits, parse_int}

parse_digits_lem :
    (value : ℕ) (s : List ℕ)
    → parse_digits (value % u32) s
      ≡ (if all_digits s then some (decimal_value value s % u32) else none)
unfolding parse_digits
parse_digits_lem value [] = refl
parse_digits_lem value (c ∷ s) = elim (Bool-cases (ltb c b'0' || ltb b'9' c)) [
  | inl bad ↦ rw bad refl
  | inr digit ↦
      let same : (value % u32 * 10 + (c - b'0')) % u32 ≡ (value * 10 + (c - b'0')) % u32 =
        omega arith in
      rw (digit, same) (parse_digits_lem (value * 10 + (c - b'0')) s)
]

-- `parse_int` succeeds on the decimal texts alone, whatever the length, and the bits that it stores are
-- those of the number that the text stands for.
pub parse_int_lem :
    (s : List ℕ) → parse_int s ≡ (if is_number s then some (decimal_value 0 s % u32) else none)
unfolding parse_int
parse_int_lem [] = refl
parse_int_lem (c ∷ s) = parse_digits_lem 0 (c ∷ s)

-- In an array of 11 bytes or more, `append_u32` prints every 32-bit number, and `parse_int` reads the
-- text that it prints back: it succeeds and stores the number's bits.
pub parse_int-append_u32 :
    (size v : ℕ) → v < 2 ^ 32 → 11 ≤ size → (append_u32 size [] v >>= parse_int) ≡ some v
parse_int-append_u32 size v lt room =
    let text = u32_text v in
    let decimal = u32_text-IsDecimal v lt in
    let fits : ltb (0 + length text) size ≡ true = lt→ltb _ size (omega (arith, decimal.short)) in
    let printed : append_u32 size [] v ≡ some text =
      append_u32-text size [] v (omega arith) ∙ if-true _ _ fits in
    let value : decimal_value 0 text % u32 ≡ v = omega (arith, decimal.value) in
    ap (λ o. o >>= parse_int) printed
    ∙ parse_int_lem text
    ∙ if-true _ _ decimal.digits
    ∙ ap some value
