-- ===== src/Ponames/Consistent.antt =====
-- The table of ponames.h against `bw2_ponum_from_dot_form` of utils.c.
use bw2c.Base.{
  ◌-◌, ◌%◌, ◌^◌, ◌≡◌, ap, ◌∙◌, refl, Bool, true, false, ◌&&◌, some, List, [], ◌∷◌, ◌++◌, ◌==◌,
  ltb→lt, ==→eq, ltb, bytes_eq, bytes_eq→eq,
}
use mathlib.Core.List.{Memᴰ}
use bw2c.Clib.{decimal}
use bw2c.Utils.DotForm.{ponum_from_dot_form, dot_form, ponum_from_dot_form-dot_form}
use bw2c.Ponames.{Allocation, allocations}

-- The Boolean form of the four facts on an entry, which evaluates on the whole table.
is_consistent : Allocation → Bool
is_consistent e =
    bytes_eq e.df (dot_form e.num)
    && (bytes_eq e.df_mask (e.df ++ b'/' ∷ decimal e.mask)
        && ((e.num % 2 ^ (32 - e.mask) == 0) && ltb e.num (2 ^ 32)))

all_consistent : List Allocation → Bool
all_consistent [] = true
all_consistent (e ∷ es) = is_consistent e && all_consistent es

all_consistent-allocations : all_consistent allocations ≡ true
unfolding all_consistent is_consistent dot_form decimal
all_consistent-allocations = refl

split_tests :
    (a b c d : Bool)
    → (a && (b && (c && d))) ≡ true
    → (a ≡ true) × (b ≡ true) × (c ≡ true) × (d ≡ true)
split_tests true true true true h = (refl, refl, refl, refl)
split_tests true true true false h = cc
split_tests true true false d h = cc
split_tests true false c d h = cc
split_tests false b c d h = cc

is_consistent_lem :
    (e : Allocation)
    → is_consistent e ≡ true
    → (ponum_from_dot_form e.df ≡ some e.num)
      × (e.df_mask ≡ e.df ++ b'/' ∷ decimal e.mask)
      × (e.num % 2 ^ (32 - e.mask) ≡ 0)
unfolding is_consistent
is_consistent_lem e h =
    let (h₁, h₂, h₃, h₄) =
      split_tests (bytes_eq e.df (dot_form e.num))
        (bytes_eq e.df_mask (e.df ++ b'/' ∷ decimal e.mask)) (e.num % 2 ^ (32 - e.mask) == 0)
        (ltb e.num (2 ^ 32)) h in
    (
      ap ponum_from_dot_form (bytes_eq→eq e.df (dot_form e.num) h₁)
          ∙ ponum_from_dot_form-dot_form e.num (ltb→lt _ _ h₄),
      bytes_eq→eq _ _ h₂,
      ==→eq _ _ h₃,
    )

both_tests : (a b : Bool) → (a && b) ≡ true → (a ≡ true) × (b ≡ true)
both_tests true b h = (refl, h)
both_tests false b h = cc

is_consistent-of :
    (es : List Allocation) (e : Allocation)
    → all_consistent es ≡ true
    → Memᴰ e es
    → is_consistent e ≡ true
unfolding all_consistent
is_consistent-of [] e h m = elim m [ ]
is_consistent-of (x ∷ es) e h (Memᴰ.head p) =
    ap is_consistent p ∙ (both_tests (is_consistent x) (all_consistent es) h).0
is_consistent-of (x ∷ es) e h (Memᴰ.tail m) =
    is_consistent-of es e (both_tests (is_consistent x) (all_consistent es) h).1 m

-- Every allocation of the table is consistent: its dot form is read to its number, its masked form is
-- the dot form with the number of bits, and behind these bits the number has zeros only.
pub allocations-consistent :
    (e : Allocation)
    → Memᴰ e allocations
    → (ponum_from_dot_form e.df ≡ some e.num)
      × (e.df_mask ≡ e.df ++ b'/' ∷ decimal e.mask)
      × (e.num % 2 ^ (32 - e.mask) ≡ 0)
allocations-consistent e m =
    is_consistent_lem e (is_consistent-of allocations e all_consistent-allocations m)
