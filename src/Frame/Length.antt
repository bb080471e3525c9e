-- ===== src/Frame/Length.antt =====
-- `bw2_frameLength` and the lengths that it adds up; the decimal length of a number.
use bw2c.Base.{
  lt→ltb, ℕ, zero, suc, ◌+◌, ◌/◌, ◌^◌, ◌≤◌, ◌<◌, ◌≡◌, ◌∙◌, List, [], ◌∷◌, arith, ltb, inl, inr,
  Bool-cases, length, length-append,
}
use native.Mathlib.Nat.{pow-suc}
use bw2c.Clib.{decimal}
use bw2c.Clib.Decimal.{decimal_step, decimal_fuel}
use bw2c.Frame.{Frame, num_digits, num_digits_loop, kv_len, po_len, ro_len}

-- `for (curr = first; curr != NULL; curr = curr->next) framelen += len(curr)`
unfoldable pub add_lens : {A : Type 0} → (A → ℕ) → List A → ℕ → ℕ
add_lens len [] framelen = framelen
add_lens len (curr ∷ next) framelen = add_lens len next (framelen + len curr)

-- Starting from 4, for "end\n". The `size_t` sum is taken without the remainder by 2 ^ 64: a frame lies in the memory.
unfoldable pub frame_length : Frame → ℕ
unfolding add_lens
frame_length frame =
    add_lens ro_len frame.ros (add_lens po_len frame.pos (add_lens kv_len frame.hdrs 4))

num_digits_loop-count :
    (f x count : ℕ) → x ≤ f → num_digits_loop f x (count + 1) ≡ count + length (decimal_fuel f x)
unfolding num_digits_loop decimal_fuel
num_digits_loop-count zero x count h = omega arith
num_digits_loop-count (suc f) x count h = elim (Bool-cases (ltb x 10)) [
  | inl small ↦ rw small (omega arith)
  | inr large ↦
      rw (large, length-append)
        (num_digits_loop-count f (x / 10) (count + 1) (ground arith) ∙ omega arith)
]

-- `_bw2_num_digits` counts the digits that `%zu` prints.
pub num_digits-decimal : (x : ℕ) → num_digits x ≡ length (decimal x)
unfolding num_digits decimal
num_digits-decimal x = num_digits_loop-count x x 0 (omega arith) ∙ omega arith

-- So a number below a power of ten has no more digits than the exponent says.
pub length-decimal-le : (k x : ℕ) → x < 10 ^ suc k → length (decimal x) ≤ suc k
length-decimal-le zero x h = rw (decimal_step, lt→ltb x 10 (omega arith)) (omega arith)
length-decimal-le (suc k) x h = rw decimal_step (elim (Bool-cases (ltb x 10)) [
  | inl small ↦ rw small (omega arith)
  | inr large ↦
      rw (large, length-append)
        (omega (arith, length-decimal-le k (x / 10) (omega (arith, pow-suc 10 (suc k)))))
])
