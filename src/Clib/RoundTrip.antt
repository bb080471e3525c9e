-- ===== src/Clib/RoundTrip.antt =====
-- `strtoull` reads back what the decimal conversions print.
use bw2c.Base.{
  ℕ, zero, suc, ◌+◌, ◌-◌, ◌/◌, ◌%◌, ◌≤◌, ◌<◌, ◌≡◌, ◌∙◌, refl, false, [], ◌∷◌, ◌++◌, append_assoc,
  append-nil, arith, ltb, inl, inr, Bool-cases, Bytes, length, replicate, length-append, All,
  All-append,
}
use bw2c.Clib.Decimal.{decimal, decimal_fuel, decimal-length_pos, zero_pad}
use bw2c.Clib.Strtoull.{ullong_max, strtoull, is_digit, scan_value, scan_rest, starts_with_digit}

abbrev pub IsDigit : ℕ → Type 0
IsDigit c = (b'0' ≤ c) × (c ≤ b'9')

abbrev pub Ends : Bytes → Type 0
Ends s = starts_with_digit s ≡ false

decimal_fuel-IsDigit : (f n : ℕ) → n ≤ f → All IsDigit (decimal_fuel f n)
unfolding decimal_fuel
decimal_fuel-IsDigit zero n h = omega arith
decimal_fuel-IsDigit (suc f) n h = elim (Bool-cases (ltb n 10)) [
  | inl small ↦ rw small (ground arith)
  | inr large ↦
      rw large
        (All-append IsDigit _ _ (decimal_fuel-IsDigit f (n / 10) (ground arith)) (ground arith))
]

pub decimal-IsDigit : (n : ℕ) → All IsDigit (decimal n)
unfolding decimal
decimal-IsDigit n = decimal_fuel-IsDigit n n (omega arith)

scan_fuel :
    (f n : ℕ) (rest : Bytes) → n ≤ f → scan_value (decimal_fuel f n ++ rest) 0 ≡ scan_value rest n
unfolding decimal_fuel scan_value is_digit
scan_fuel zero n rest h = ground arith
scan_fuel (suc f) n rest h = elim (Bool-cases (ltb n 10)) [
  | inl small ↦ rw small (ground arith)
  | inr large ↦
      rw (large, append_assoc)
        (scan_fuel f (n / 10) ((b'0' + n % 10) ∷ rest) (ground arith) ∙ ground arith)
]

-- The digits of `n` scan as `n`.
pub scan_value-decimal :
    (n : ℕ) (rest : Bytes) → scan_value (decimal n ++ rest) 0 ≡ scan_value rest n
unfolding decimal
scan_value-decimal n rest = scan_fuel n n rest (omega arith)

pub scan_value-zeros : (k : ℕ) (s : Bytes) → scan_value (replicate k b'0' ++ s) 0 ≡ scan_value s 0
unfolding scan_value is_digit
scan_value-zeros zero s = refl
scan_value-zeros (suc k) s = scan_value-zeros k s

zeros-IsDigit : (k : ℕ) → All IsDigit (replicate k b'0')
zeros-IsDigit zero = tt
zeros-IsDigit (suc k) = (omega arith, zeros-IsDigit k)

scan_rest_lem : (ds rest : Bytes) → All IsDigit ds → Ends rest → scan_rest (ds ++ rest) ≡ rest
unfolding scan_rest is_digit starts_with_digit
scan_rest_lem [] [] h e = refl
scan_rest_lem [] (c ∷ rest) h e = rw e
scan_rest_lem (d ∷ ds) rest h e = ground (arith, scan_rest_lem ds rest h.1 e)

scan_value_stop : (rest : Bytes) (n : ℕ) → Ends rest → scan_value rest n ≡ n
unfolding scan_value starts_with_digit
scan_value_stop [] n e = refl
scan_value_stop (c ∷ rest) n e = rw e

-- One digit and more, and then none: the value of the digits, and the rest.
strtoull_digits :
    (d : ℕ) (ds rest : Bytes)
    → All IsDigit (d ∷ ds)
    → Ends rest
    → scan_value (d ∷ ds ++ rest) 0 ≤ ullong_max
    → strtoull (d ∷ ds ++ rest)
      ≡ record { value = scan_value (d ∷ ds ++ rest) 0; rest = rest; erange = false }
unfolding strtoull
strtoull_digits d ds rest h e fits = ground (arith, scan_rest_lem ds rest h.1 e)

pub strtoull_lem :
    (n : ℕ) (ds rest : Bytes)
    → All IsDigit ds
    → 0 < length ds
    → Ends rest
    → scan_value (ds ++ rest) 0 ≡ n
    → n ≤ ullong_max
    → strtoull (ds ++ rest) ≡ record { value = n; rest = rest; erange = false }
strtoull_lem n [] rest h l e v fits = absurd (omega arith)
strtoull_lem n (d ∷ ds) rest h l e v fits = rw (strtoull_digits d ds rest h e (rw v fits), v)

-- A number that fits into 64 bits is read back from its print, up to what follows.
pub strtoull-decimal :
    (n : ℕ) (rest : Bytes)
    → n ≤ ullong_max
    → Ends rest
    → strtoull (decimal n ++ rest) ≡ record { value = n; rest = rest; erange = false }
strtoull-decimal n rest fits e =
    strtoull_lem n (decimal n) rest (decimal-IsDigit n) (decimal-length_pos n) e
      (scan_value-decimal n rest ∙ scan_value_stop rest n e) fits

pub zero_pad-IsDigit : (w n : ℕ) → All IsDigit (zero_pad w (decimal n))
unfolding zero_pad
zero_pad-IsDigit w n =
    All-append IsDigit _ _ (zeros-IsDigit (w - length (decimal n))) (decimal-IsDigit n)

zero_pad-length_pos : (w n : ℕ) → 0 < length (zero_pad w (decimal n))
unfolding zero_pad
zero_pad-length_pos w n = omega (
  arith,
  length-append (replicate {A = ℕ} (w - length (decimal n)) b'0') (decimal n),
  decimal-length_pos n,
)

scan_value-zero_pad : (w n : ℕ) → scan_value (zero_pad w (decimal n) ++ []) 0 ≡ n
unfolding zero_pad scan_value
scan_value-zero_pad w n =
    rw (append-nil, scan_value-zeros) (rw append-nil at (scan_value-decimal n []))

-- So it is with zeros in front.
pub strtoull-zero_pad :
    (w n : ℕ)
    → n ≤ ullong_max
    → strtoull (zero_pad w (decimal n)) ≡ record { value = n; rest = []; erange = false }
unfolding starts_with_digit
strtoull-zero_pad w n fits = rw append-nil at (
    strtoull_lem n (zero_pad w (decimal n)) [] (zero_pad-IsDigit w n) (zero_pad-length_pos w n) refl
      (scan_value-zero_pad w n) fits)
