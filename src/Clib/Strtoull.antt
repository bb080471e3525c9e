-- ===== src/Clib/Strtoull.antt =====
-- `strtoull(s, &end, 10)` of C: blanks, a sign, digits; clamped, with ERANGE, where they do not fit.
use bw2c.Base.{
  ℕ, ◌+◌, ◌-◌, ◌*◌, ◌%◌, ◌^◌, ◌≡◌, refl, Bool, true, false, ◌&&◌, ◌||◌, not, [], ◌∷◌, ltb, leb,
  ◌==◌, if◌then◌else◌, Bytes, codes,
}

abbrev pub ullong_max : ℕ
ullong_max = 2 ^ 64 - 1

pub record Parsed : Type 0 where
  pub value : ℕ
  -- what `end` points to
  pub rest : Bytes
  -- `errno` was set to ERANGE
  pub erange : Bool

unfoldable pub is_digit : ℕ → Bool
is_digit c = leb b'0' c && leb c b'9'

-- `isspace` in the C locale: tab to carriage return, and the blank.
is_space : ℕ → Bool
is_space c = (leb 9 c && leb c 13) || c == b' '

skip_spaces : Bytes → Bytes
unfolding is_space
skip_spaces [] = []
skip_spaces (c ∷ s) = let rest = skip_spaces s in if is_space c then rest else c ∷ s

-- The digits in front, as a number behind `n`.
unfoldable pub scan_value : Bytes → ℕ → ℕ
scan_value [] n = n
scan_value (c ∷ s) n =
    let more = scan_value s (n * 10 + (c - b'0')) in if is_digit c then more else n

unfoldable pub scan_rest : Bytes → Bytes
scan_rest [] = []
scan_rest (c ∷ s) = let more = scan_rest s in if is_digit c then more else c ∷ s

unfoldable pub starts_with_digit : Bytes → Bool
unfolding is_digit
starts_with_digit [] = false
starts_with_digit (c ∷ s) = is_digit c

after_sign : Bytes → Bytes
after_sign [] = []
after_sign (c ∷ s) = if c == b'-' || c == b'+' then s else c ∷ s

is_negative : Bytes → Bool
is_negative [] = false
is_negative (c ∷ s) = c == b'-'

-- A minus negates in 64 bits. With no digits the value is 0 and `end` is the start.
unfoldable pub strtoull : Bytes → Parsed
unfolding is_digit is_space skip_spaces scan_value scan_rest starts_with_digit after_sign
    is_negative
strtoull s =
    let t = skip_spaces s in
    let ds = after_sign t in
    let n = scan_value ds 0 in
    if not (starts_with_digit ds)
    then record { value = 0; rest = s; erange = false }
    else if ltb ullong_max n
    then record { value = ullong_max; rest = scan_rest ds; erange = true }
    else record {
      value = if is_negative t then (2 ^ 64 - n) % 2 ^ 64 else n;
      rest = scan_rest ds;
      erange = false;
    }

strtoull_tests :
    (strtoull (codes " 42.7") ≡ record { value = 42; rest = codes ".7"; erange = false })
    × (strtoull (codes "-1") ≡ record { value = ullong_max; rest = []; erange = false })
    × (strtoull (codes "99999999999999999999")
        ≡ record { value = ullong_max; rest = []; erange = true })
    × (strtoull (codes ".5") ≡ record { value = 0; rest = codes ".5"; erange = false })
unfolding strtoull
strtoull_tests = (refl, refl, refl, refl)
