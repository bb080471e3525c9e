-- ===== src/Clib.antt =====
-- What the program uses of the C standard library on texts: `strlen`, `strcmp`, `strncmp`,
-- `strchr`, `strtoull` at base 10, and the conversions of `snprintf` (in two children).
pub mod Decimal
pub mod Strtoull
pub mod RoundTrip
pub use Decimal.{zero_pad-length, decimal-length_pos}
unfoldable pub use Decimal.{decimal, zero_pad}
pub use Strtoull.{Parsed, ullong_max}
unfoldable pub use Strtoull.{strtoull}
use bw2c.Base.{
  ℕ, zero, suc, ◌≡◌, refl, Bool, true, false, ◌&&◌, ◌||◌, ◌≢◌, Option, none, some, List, [], ◌∷◌,
  ◌++◌, arith, ltb, ◌==◌, if◌then◌else◌, Bytes, bytes_eq, bytes_eq_refl, length, All,
}

-- The C string in a buffer: the bytes before the first NUL.
unfoldable pub cstr : Bytes → Bytes
cstr [] = []
cstr (c ∷ s) = let rest = cstr s in if c == 0 then [] else c ∷ rest

unfoldable pub strlen : Bytes → ℕ
unfolding cstr
strlen s = length (cstr s)

-- `strcmp(a, b) == 0`
unfoldable pub strcmp_eq : Bytes → Bytes → Bool
unfolding cstr
strcmp_eq a b = bytes_eq (cstr a) (cstr b)

-- `strncmp(a, b, n) == 0` for buffers: bytes are compared up to `n`, or to a NUL in both. A buffer
-- that ends counts as ended by a NUL.
unfoldable pub strncmp_eq : Bytes → Bytes → ℕ → Bool
strncmp_eq a b zero = true
strncmp_eq [] [] (suc n) = true
strncmp_eq [] (d ∷ b) (suc n) = d == 0
strncmp_eq (c ∷ a) [] (suc n) = c == 0
strncmp_eq (c ∷ a) (d ∷ b) (suc n) = c == d && (c == 0 || strncmp_eq a b n)

-- The bytes around the first `c` of a C string, as `strchr` finds it.
unfoldable pub strchr : Bytes → ℕ → Option (Bytes × Bytes)
strchr [] d = none
strchr (c ∷ s) d =
    let later = strchr s d in
    if c == d then some ([], s) else elim later [ none ↦ none | some (a, b) ↦ some (c ∷ a, b) ]

abbrev pub NoNul : Bytes → Type 0
NoNul = All (λ c. c ≢ 0)

pub cstr_lem : (s : Bytes) → NoNul s → cstr s ≡ s
unfolding cstr
cstr_lem [] h = refl
cstr_lem (c ∷ s) h = ground (arith, cstr_lem s h.1)

-- A terminating NUL ends the string, whatever stands behind it.
pub cstr-append_nul : (s rest : Bytes) → NoNul s → cstr (s ++ 0 ∷ rest) ≡ s
unfolding cstr
cstr-append_nul [] rest h = refl
cstr-append_nul (c ∷ s) rest h = ground (arith, cstr-append_nul s rest h.1)

pub strcmp_eq_refl : (s : Bytes) → strcmp_eq s s ≡ true
unfolding strcmp_eq
strcmp_eq_refl s = bytes_eq_refl (cstr s)
