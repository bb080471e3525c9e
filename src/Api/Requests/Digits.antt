-- ===== src/Api/Requests/Digits.antt =====
-- The texts that the calls print of a time and of numbers.
use bw2c.Base.{
  ℕ, ◌+◌, ◌≤◌, ◌<◌, ◌≢◌, [], ◌∷◌, ◌++◌, arith, Bytes, length, length-append, All-append,
}
use bw2c.Clib.{decimal, zero_pad, zero_pad-length, NoNul}
use bw2c.Frame.Length.{length-decimal-le}
use bw2c.Api.Params.{Tm}
use bw2c.Api.Requests.{format_time_rfc3339}
use bw2c.Api.Requests.Sendable.{IsText, decimal-NoNul, zero_pad-NoNul}

-- A year of at most four digits, and two for the others.
pub record IsTime (t : Tm) : Type 0 where
  pub year_short : t.year < 10000
  pub month_short : t.month < 100
  pub day_short : t.day < 100
  pub hour_short : t.hour < 100
  pub minute_short : t.minute < 100
  pub second_short : t.second < 100

-- A text of at most `n` bytes.
record IsWithin (n : ℕ) (s : Bytes) : Type 0 where
  no_nul : NoNul s
  short : length s ≤ n

joined-IsWithin :
    (n m c : ℕ) (s rest : Bytes)
    → 0 < c
    → IsWithin n s
    → IsWithin m rest
    → IsWithin (n + 1 + m) (s ++ c ∷ rest)
joined-IsWithin n m c s rest pos h r = record {
  no_nul = All-append (λ d. d ≢ 0) s (c ∷ rest) h.no_nul (λ e. omega arith, r.no_nul);
  short = omega (arith, length-append s (c ∷ rest), h.short, r.short);
}

two_digits-IsWithin : (n : ℕ) → n < 100 → IsWithin 2 (zero_pad 2 (decimal n))
two_digits-IsWithin n h = record {
  no_nul = zero_pad-NoNul 2 (decimal n) (decimal-NoNul n);
  short = omega (arith, zero_pad-length 2 (decimal n) (length-decimal-le 1 n (omega arith)));
}

year-IsWithin : (n : ℕ) → n < 10000 → IsWithin 4 (decimal n)
year-IsWithin n h = record { no_nul = decimal-NoNul n; short = length-decimal-le 3 n (omega arith) }

pub format_time_rfc3339-IsText : (t : Tm) → IsTime t → IsText (format_time_rfc3339 t)
unfolding format_time_rfc3339
format_time_rfc3339-IsText t h =
    let second =
      joined-IsWithin 2 0 b'Z' _ [] (omega arith) (two_digits-IsWithin t.second h.second_short)
        (record { no_nul = tt; short = omega arith }) in
    let minute =
      joined-IsWithin 2 _ b':' _ _ (omega arith) (two_digits-IsWithin t.minute h.minute_short)
        second in
    let hour =
      joined-IsWithin 2 _ b':' _ _ (omega arith) (two_digits-IsWithin t.hour h.hour_short) minute in
    let day =
      joined-IsWithin 2 _ b'T' _ _ (omega arith) (two_digits-IsWithin t.day h.day_short) hour in
    let month =
      joined-IsWithin 2 _ b'-' _ _ (omega arith) (two_digits-IsWithin t.month h.month_short) day in
    let year =
      joined-IsWithin 4 _ b'-' _ _ (omega arith) (year-IsWithin t.year h.year_short) month in
    record { no_nul = year.no_nul; short = omega (arith, year.short) }
