-- ===== src/Clib/Decimal.antt =====
-- The decimal conversions of `snprintf`: `%zu`, and the padding of `%010zu`.
use bw2c.Base.{
  ℕ, zero, suc, ◌+◌, ◌-◌, ◌/◌, ◌%◌, ◌≤◌, ◌<◌, ◌≡◌, refl, [], ◌∷◌, ◌++◌, arith, ltb, if◌then◌else◌,
  inl, inr, Bool-cases, Bytes, length, replicate, length-append, length-replicate,
}

unfoldable pub decimal_fuel : ℕ → ℕ → Bytes
decimal_fuel zero n = (b'0' + n % 10) ∷ []
decimal_fuel (suc f) n =
    let rest = decimal_fuel f (n / 10) in
    if ltb n 10 then (b'0' + n) ∷ [] else rest ++ (b'0' + n % 10) ∷ []

-- The digits of a number; as many rounds as the number is large are more than enough.
unfoldable pub decimal : ℕ → Bytes
unfolding decimal_fuel
decimal n = decimal_fuel n n

decimal_fuel_eq : (f g n : ℕ) → n ≤ f → n ≤ g → decimal_fuel f n ≡ decimal_fuel g n
unfolding decimal_fuel
decimal_fuel_eq zero zero n hf hg = refl
decimal_fuel_eq zero (suc g) n hf hg = ground arith
decimal_fuel_eq (suc f) zero n hf hg = ground arith
decimal_fuel_eq (suc f) (suc g) n hf hg =
    ground (arith, λ (p : n / 10 ≤ f) (q : n / 10 ≤ g). decimal_fuel_eq f g (n / 10) p q)

-- Below ten one digit; else the digits of the tenth, and the last one.
pub decimal_step :
    (n : ℕ)
    → decimal n ≡ (if ltb n 10 then (b'0' + n) ∷ [] else decimal (n / 10) ++ (b'0' + n % 10) ∷ [])
unfolding decimal decimal_fuel
decimal_step zero = refl
decimal_step (suc n) =
    ground (arith, λ (p : suc n / 10 ≤ n). decimal_fuel_eq n (suc n / 10) (suc n / 10) p)

pub decimal-length_pos : (n : ℕ) → 0 < length (decimal n)
decimal-length_pos n = rw decimal_step (elim (Bool-cases (ltb n 10)) [
  | inl small ↦ rw small (omega arith)
  | inr large ↦ rw large (omega (arith, length-append (decimal (n / 10)) ((b'0' + n % 10) ∷ [])))
])

-- Zeros in front, up to a width.
unfoldable pub zero_pad : ℕ → Bytes → Bytes
zero_pad width s = replicate (width - length s) b'0' ++ s

pub zero_pad-length : (width : ℕ) (s : Bytes) → length s ≤ width → length (zero_pad width s) ≡ width
unfolding zero_pad
zero_pad-length width s h = omega (
  arith,
  length-append (replicate (width - length s) b'0') s,
  length-replicate {A = ℕ} (width - length s) b'0',
)
