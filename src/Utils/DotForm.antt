-- ===== src/Utils/DotForm.antt =====
-- `bw2_ponum_from_dot_form` of utils.c, and that it reads back the dot form of every number.
use bw2c.Base.{
  ℕ, ◌+◌, ◌*◌, ◌/◌, ◌%◌, ◌^◌, ◌≤◌, ◌<◌, ◌≡◌, refl, ◌||◌, Option, none, some, [], ◌∷◌, ◌++◌, arith,
  ltb, ◌==◌, le→ltb, append-nil, ap, if◌then◌else◌, Bytes, codes, ◌>>=◌,
}
use bw2c.Clib.{strtoull, decimal}
use bw2c.Clib.RoundTrip.{strtoull-decimal}
use bw2c.Clib.Strtoull.{starts_with_digit, is_digit}

-- One part of the form and the byte that must end it (0 for the end of the text). `first < 0` is
-- never true of an unsigned number. The text behind the part is returned.
unfoldable pub dot_part : (ends : ℕ) → Bytes → Option (ℕ × Bytes)
dot_part ends numstr =
    let p = strtoull numstr in
    if p.erange || ltb 255 p.value then none else elim p.rest [
      | [] ↦ if ends == 0 then some (p.value, []) else none
      | c ∷ rest ↦ if c == ends then some (p.value, rest) else none
    ]

-- The four parts are below 256, so the disjunction of the shifted bytes is a sum. A first part of 128 and more is
-- shifted into the sign of an `int32_t`, which the C language leaves open and gcc defines as this sum.
unfoldable pub ponum_from_dot_form : Bytes → Option ℕ
ponum_from_dot_form dotform = do
  (first, s₁) ← dot_part b'.' dotform
  (second, s₂) ← dot_part b'.' s₁
  (third, s₃) ← dot_part b'.' s₂
  (fourth, _) ← dot_part 0 s₃
  some (first * 2 ^ 24 + second * 2 ^ 16 + third * 2 ^ 8 + fourth)

dot_test : ponum_from_dot_form (codes "2.0.7.255") ≡ some 33556479
unfolding ponum_from_dot_form dot_part strtoull
dot_test = refl

-- What each part of the form is read back to.
dot_part_lem :
    (a : ℕ) (rest : Bytes) → a ≤ 255 → dot_part b'.' (decimal a ++ b'.' ∷ rest) ≡ some (a, rest)
unfolding dot_part starts_with_digit is_digit
dot_part_lem a rest h =
    let p = strtoull-decimal a (b'.' ∷ rest) (omega arith) refl in rw (p, le→ltb 255 a h, p)

last_part_lem : (a : ℕ) → a ≤ 255 → dot_part 0 (decimal a) ≡ some (a, [])
unfolding dot_part starts_with_digit
last_part_lem a h =
    let p = rw append-nil at (strtoull-decimal a [] (omega arith) refl) in rw (p, le→ltb 255 a h, p)

-- The dot form of a number: its four bytes in decimal, the highest first.
unfoldable pub dot_form : ℕ → Bytes
dot_form n =
    decimal (n / 2 ^ 24)
    ++ b'.'
      ∷ (decimal (n / 2 ^ 16 % 256)
          ++ b'.' ∷ (decimal (n / 2 ^ 8 % 256) ++ b'.' ∷ decimal (n % 256)))

-- The dot form of every 32-bit number is read back to the number.
pub ponum_from_dot_form-dot_form : (n : ℕ) → n < 2 ^ 32 → ponum_from_dot_form (dot_form n) ≡ some n
unfolding ponum_from_dot_form dot_form
ponum_from_dot_form-dot_form n h =
    rw
      (
        dot_part_lem (n / 2 ^ 24) _ (omega arith),
        dot_part_lem (n / 2 ^ 16 % 256) _ (omega arith),
        dot_part_lem (n / 2 ^ 8 % 256) _ (omega arith),
        last_part_lem (n % 256) (omega arith),
      )
      (ap some (omega arith))
