-- ===== src/Examples/Texts.antt =====
-- Dot forms and allocations.
use bw2c.Base.{◌-◌, ◌%◌, ◌^◌, ◌≡◌, refl, some, ◌∷◌, ◌++◌, arith, codes}
use mathlib.Core.List.{Memᴰ}
use bw2c.Clib.{decimal}
use bw2c.Clib.Strtoull.{strtoull}
use bw2c.Utils.DotForm.{ponum_from_dot_form, dot_part, dot_form, ponum_from_dot_form-dot_form}
use bw2c.Ponames.{Allocation}
use bw2c.Ponames.Consistent.{allocations-consistent}

ponum_from_dot_form-dot_form_example : ponum_from_dot_form (dot_form 1073742080) ≡ some 1073742080
ponum_from_dot_form-dot_form_example = ponum_from_dot_form-dot_form 1073742080 (omega arith)

ponum_2_0_7_255 : ponum_from_dot_form (codes "2.0.7.255") ≡ some 33556479
unfolding ponum_from_dot_form dot_part strtoull
ponum_2_0_7_255 = refl

abbrev first_allocation : Allocation
first_allocation = record { num = 0; df_mask = codes "0.0.0.0/4"; df = codes "0.0.0.0"; mask = 4 }

allocations-consistent_example :
    (ponum_from_dot_form (codes "0.0.0.0") ≡ some 0)
    × (codes "0.0.0.0/4" ≡ codes "0.0.0.0" ++ b'/' ∷ decimal 4)
    × (0 % 2 ^ (32 - 4) ≡ 0)
allocations-consistent_example = allocations-consistent first_allocation (Memᴰ.head refl)
