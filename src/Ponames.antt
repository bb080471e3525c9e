-- ===== src/Ponames.antt =====
-- ponames.h: the allocated payload object numbers. Each has a number, a dot form, the number of bits
-- that the dot form fixes, and the dot form with these bits.
pub mod Consistent
use bw2c.Base.{
  ℕ, ◌-◌, ◌%◌, ◌^◌, ◌≡◌, refl, Bool, true, ◌&&◌, Option, none, some, List, [], ◌∷◌, ◌++◌, arith,
  ◌==◌, Bytes, codes, bytes_eq, bytes_eq→eq, length,
}
use mathlib.Core.List.{Memᴰ}
use bw2c.Clib.{decimal, strtoull}
use bw2c.Utils.DotForm.{ponum_from_dot_form, dot_part}

-- The four macros of one allocation.
pub record Allocation : Type 0 where
  pub num : ℕ
  pub df_mask : Bytes
  pub df : Bytes
  pub mask : ℕ

abbrev alloc : ℕ → Bytes → Bytes → ℕ → Allocation
alloc n dm d m = record { num = n; df_mask = dm; df = d; mask = m }

abbrev pub allocations_first : List Allocation
allocations_first =
    alloc 0 (codes "0.0.0.0/4") (codes "0.0.0.0") 4
    ∷ alloc 1073741824 (codes "64.0.0.0/4") (codes "64.0.0.0") 4
    ∷ alloc 16777216 (codes "1.0.0.0/8") (codes "1.0.0.0") 8
    ∷ alloc 33554432 (codes "2.0.0.0/8") (codes "2.0.0.0") 8
    ∷ alloc 50331648 (codes "3.0.0.0/8") (codes "3.0.0.0") 8
    ∷ alloc 1090519040 (codes "65.0.0.0/8") (codes "65.0.0.0") 8
    ∷ alloc 1107296256 (codes "66.0.0.0/8") (codes "66.0.0.0") 8
    ∷ alloc 1124073472 (codes "67.0.0.0/8") (codes "67.0.0.0") 8
    ∷ alloc 0 (codes "0.0.0.0/24") (codes "0.0.0.0") 24
    ∷ alloc 33554688 (codes "2.0.1.0/24") (codes "2.0.1.0") 24
    ∷ alloc 33555200 (codes "2.0.3.0/24") (codes "2.0.3.0") 24
    ∷ alloc 33555456 (codes "2.0.4.0/24") (codes "2.0.4.0") 24
    ∷ alloc 33556224 (codes "2.0.7.0/24") (codes "2.0.7.0") 24
    ∷ alloc 33556480 (codes "2.0.8.0/24") (codes "2.0.8.0") 24
    ∷ alloc 33556736 (codes "2.0.9.0/24") (codes "2.0.9.0") 24
    ∷ alloc 33555520 (codes "2.0.4.64/26") (codes "2.0.4.64") 26
    ∷ alloc 33556752 (codes "2.0.9.16/28") (codes "2.0.9.16") 28
    ∷ alloc 1 (codes "0.0.0.1/32") (codes "0.0.0.1") 32
    ∷ []

abbrev pub allocations_second : List Allocation
allocations_second =
    alloc 2 (codes "0.0.0.2/32") (codes "0.0.0.2") 32
    ∷ alloc 17 (codes "0.0.0.17/32") (codes "0.0.0.17") 32
    ∷ alloc 18 (codes "0.0.0.18/32") (codes "0.0.0.18") 32
    ∷ alloc 32 (codes "0.0.0.32/32") (codes "0.0.0.32") 32
    ∷ alloc 33 (codes "0.0.0.33/32") (codes "0.0.0.33") 32
    ∷ alloc 48 (codes "0.0.0.48/32") (codes "0.0.0.48") 32
    ∷ alloc 49 (codes "0.0.0.49/32") (codes "0.0.0.49") 32
    ∷ alloc 50 (codes "0.0.0.50/32") (codes "0.0.0.50") 32
    ∷ alloc 51 (codes "0.0.0.51/32") (codes "0.0.0.51") 32
    ∷ alloc 64 (codes "0.0.0.64/32") (codes "0.0.0.64") 32
    ∷ alloc 80 (codes "0.0.0.80/32") (codes "0.0.0.80") 32
    ∷ alloc 16777472 (codes "1.0.1.0/32") (codes "1.0.1.0") 32
    ∷ alloc 16777473 (codes "1.0.1.1/32") (codes "1.0.1.1") 32
    ∷ alloc 16777728 (codes "1.0.2.0/32") (codes "1.0.2.0") 32
    ∷ alloc 16778753 (codes "1.0.6.1/32") (codes "1.0.6.1") 32
    ∷ alloc 33554944 (codes "2.0.2.0/32") (codes "2.0.2.0") 32
    ∷ alloc 33554945 (codes "2.0.2.1/32") (codes "2.0.2.1") 32
    ∷ alloc 33554946 (codes "2.0.2.2/32") (codes "2.0.2.2") 32
    ∷ alloc 33555201 (codes "2.0.3.1/32") (codes "2.0.3.1") 32
    ∷ []

abbrev pub allocations_third : List Allocation
allocations_third =
    alloc 33555713 (codes "2.0.5.1/32") (codes "2.0.5.1") 32
    ∷ alloc 33555969 (codes "2.0.6.1/32") (codes "2.0.6.1") 32
    ∷ alloc 33556225 (codes "2.0.7.1/32") (codes "2.0.7.1") 32
    ∷ alloc 33556226 (codes "2.0.7.2/32") (codes "2.0.7.2") 32
    ∷ alloc 33556227 (codes "2.0.7.3/32") (codes "2.0.7.3") 32
    ∷ alloc 33556228 (codes "2.0.7.4/32") (codes "2.0.7.4") 32
    ∷ alloc 33556480 (codes "2.0.8.0/32") (codes "2.0.8.0") 32
    ∷ alloc 33556481 (codes "2.0.8.1/32") (codes "2.0.8.1") 32
    ∷ alloc 33556482 (codes "2.0.8.2/32") (codes "2.0.8.2") 32
    ∷ alloc 33556483 (codes "2.0.8.3/32") (codes "2.0.8.3") 32
    ∷ alloc 33556484 (codes "2.0.8.4/32") (codes "2.0.8.4") 32
    ∷ alloc 33556485 (codes "2.0.8.5/32") (codes "2.0.8.5") 32
    ∷ alloc 33556486 (codes "2.0.8.6/32") (codes "2.0.8.6") 32
    ∷ alloc 33556489 (codes "2.0.8.9/32") (codes "2.0.8.9") 32
    ∷ []

abbrev pub allocations_fourth : List Allocation
allocations_fourth =
    alloc 33556993 (codes "2.0.10.1/32") (codes "2.0.10.1") 32
    ∷ alloc 33556994 (codes "2.0.10.2/32") (codes "2.0.10.2") 32
    ∷ alloc 33557249 (codes "2.0.11.1/32") (codes "2.0.11.1") 32
    ∷ alloc 33557250 (codes "2.0.11.2/32") (codes "2.0.11.2") 32
    ∷ alloc 33557251 (codes "2.0.11.3/32") (codes "2.0.11.3") 32
    ∷ alloc 33557505 (codes "2.0.12.1/32") (codes "2.0.12.1") 32
    ∷ alloc 33557506 (codes "2.0.12.2/32") (codes "2.0.12.2") 32
    ∷ alloc 1073742080 (codes "64.0.1.0/32") (codes "64.0.1.0") 32
    ∷ alloc 1073742081 (codes "64.0.1.1/32") (codes "64.0.1.1") 32
    ∷ alloc 1073742082 (codes "64.0.1.2/32") (codes "64.0.1.2") 32
    ∷ alloc 1124073984 (codes "67.0.2.0/32") (codes "67.0.2.0") 32
    ∷ []

-- BW2_PO_NUM_ROENTITYWKEY
abbrev pub ro_entity_w_key : ℕ
ro_entity_w_key = 50

abbrev pub allocations : List Allocation
allocations =
    allocations_first ++ (allocations_second ++ (allocations_third ++ (allocations_fourth)))
