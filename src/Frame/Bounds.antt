-- ===== src/Frame/Bounds.antt =====
-- What `bw2_readFrame` puts into the frame heap, whatever the input is.
use bw2c.Base.{
  ℕ, suc, ◌+◌, ◌-◌, ◌%◌, ◌^◌, ◌≤◌, ◌<◌, ◌≡◌, false, Bool-cases, inl, inr, Option, none, some, [],
  ◌∷◌, ltb, leb, if◌then◌else◌, arith, Bytes, length,
}
use mathlib.Core.Option
use bw2c.Clib.{cstr, strtoull}
use bw2c.Run.{Cmd, pure, fail, ◌>>=◌, malformed_frame}
use bw2c.Run.Yields.{Yields, Yields-bind, Yields-if, Yields-any}
use bw2c.Os.{Source}
use bw2c.Utils.Stored.{Short, Filled, read_until_char-Short, read_until_full-Filled}
use bw2c.Utils.Reading.{
  Until, array_full, eof_reached, char_found, until_error, read_until_char, drop_until_char,
  read_until_full, drop_full_array,
}
use bw2c.Frame.Read.{
  Block, read_token, heap_alloc, consume_newline, fill, read_body, alloc_object, read_value,
  struct_size, size_mod,
}

pub length-cstr-le : (s : Bytes) → length (cstr s) ≤ length s
unfolding cstr
length-cstr-le [] = omega arith
length-cstr-le (c ∷ s) = ground (arith, length-cstr-le s)

pub strtoull-lt : (s : Bytes) → (strtoull s).value < 2 ^ 64
unfolding strtoull
strtoull-lt s = ground arith

abbrev pub AtMost : ℕ → Bytes → Type 0
AtMost k buf = length buf ≤ k

-- A block for `size` bytes behind those that are used, within the heap.
abbrev Placed : (heapsize used size : ℕ) → Option Block × ℕ → Type 0
Placed heapsize used size (none, used') = Unit
Placed heapsize used size (some b, used') = (used' ≡ used + size) × (used' ≤ heapsize)

-- An object that takes `size` bytes for it, and satisfies `Q`.
abbrev pub Taken :
    {A : Type 0} → (heapsize used : ℕ) → (A → ℕ) → (A → Type 0) → Option A × ℕ → Type 0
Taken heapsize used size Q (none, used') = Unit
Taken heapsize used size Q (some a, used') = (used' ≡ used + size a) × (used' ≤ heapsize) × Q a

-- A value that is stored is complete.
abbrev Complete : Option Block → ℕ → Option Bytes → Type 0
Complete block vallen none = Unit
Complete (some b) vallen (some v) = length v ≡ vallen
Complete none vallen (some v) = 0 < 0

module _ (os : Source) (heapsize : ℕ) (small : heapsize < size_mod) where
  open os use {State}

  -- One case for each status.
  pub Yields-until :
      {A B : Type 0} (P : Until × A → Type 0) (Q : B → Type 0) (m : Cmd State (Until × A))
      (f : Until × A → Cmd State B) (s : State)
      → Yields P (m s)
      → ((a : A) (s' : State) → P (array_full, a) → Yields Q (f (array_full, a) s'))
      → ((a : A) (s' : State) → Yields Q (f (eof_reached, a) s'))
      → ((a : A) (s' : State) → P (char_found, a) → Yields Q (f (char_found, a) s'))
      → ((a : A) (s' : State) → Yields Q (f (until_error, a) s'))
      → Yields Q ((m >>= f) s)
  Yields-until P Q m f s h on_full on_eof on_char on_error =
      Yields-bind P Q m f s h λ (status, a) s'.
        elim status as (λ u. P (u, a) → Yields Q (f (u, a) s')) [
          | array_full ↦ λ p. on_full a s' p
          | eof_reached ↦ λ p. on_eof a s'
          | char_found ↦ λ p. on_char a s' p
          | until_error ↦ λ p. on_error a s'
        ]

  pub read_token-AtMost :
      (k delimiter : ℕ) (s : State) → Yields (AtMost k) (read_token os (suc k) delimiter s)
  unfolding read_token
  read_token-AtMost k delimiter s =
      Yields-until (Short os k) (AtMost k) (read_until_char os k delimiter) _ s
        (read_until_char-Short os k delimiter s)
        (λ a s' p.
          Yields-until (λ u. Unit {0}) (AtMost k) (drop_until_char os 1 delimiter false) _ s'
            (Yields-any _) (λ n s'' q. p) (λ n s''. tt) (λ n s'' q. p) (λ n s''. tt))
        (λ a s'. tt) (λ a s' p. p) (λ a s'. tt)

  heap_alloc-Placed :
      (used size : ℕ) (s : State)
      → used ≤ heapsize
      → Yields (Placed heapsize used size) (heap_alloc os (some heapsize) used size s)
  unfolding heap_alloc
  heap_alloc-Placed used size s l =
      elim (Bool-cases (ltb ((heapsize + size_mod - used) % size_mod) size)) [
        | inl e ↦ rw e tt
        | inr e ↦ rw e (ground arith)
      ]

  alloc_object-Placed :
      (used extra vallen : ℕ) (s : State)
      → used ≤ heapsize
      → extra < 2 ^ 32
      → vallen < 2 ^ 64
      → Yields
          (Placed heapsize used (struct_size + extra + vallen))
          (alloc_object os (some heapsize) used extra vallen s)
  unfolding alloc_object
  alloc_object-Placed used extra vallen s l le lv =
      elim (Bool-cases (leb vallen ((struct_size + extra + vallen) % size_mod))) [
        | inl e ↦
            let whole : (struct_size + extra + vallen) % size_mod ≡ struct_size + extra + vallen =
              ground arith in
            rw (e, whole) (heap_alloc-Placed used (struct_size + extra + vallen) s l)
        | inr e ↦ rw e tt
      ]

  AfterFill : Option Block → ℕ → Until × Option Bytes → Type 0
  AfterFill block vallen (array_full, v) = Complete block vallen v
  AfterFill block vallen _ = Unit

  dropped : (vallen : ℕ) (status : Until) → AfterFill none vallen (status, none)
  unfolding AfterFill
  dropped vallen array_full = tt
  dropped vallen _ = tt

  kept :
      (b : Block) (vallen : ℕ) (status : Until) (arr : Bytes)
      → Filled vallen (status, arr)
      → AfterFill (some b) vallen (status, some arr)
  unfolding AfterFill
  kept b vallen array_full arr h = h
  kept b vallen _ arr h = tt

  fill-AfterFill :
      (block : Option Block) (vallen : ℕ) (s : State)
      → Yields (AfterFill block vallen) (fill os block vallen s)
  unfolding fill
  fill-AfterFill none vallen s =
      Yields-bind (λ u. Unit {0}) (AfterFill none vallen) (drop_full_array os vallen) _ s
        (Yields-any _) (λ (status, n) s' h. dropped vallen status)
  fill-AfterFill (some b) vallen s =
      Yields-bind (Filled vallen) (AfterFill (some b) vallen) (read_until_full os vallen) _ s
        (read_until_full-Filled os vallen s) (λ (status, arr) s' h. kept b vallen status arr h)

  -- The newline behind what was read.
  pub Yields-newline :
      {A : Type 0} (Q : A → Type 0) (a : A) (s : State)
      → Q a
      → Yields Q
          ((consume_newline os >>= (λ newline. if newline then pure a else fail malformed_frame)) s)
  Yields-newline Q a s q =
      Yields-bind (λ b. Unit {0}) Q (consume_newline os) _ s (Yields-any _)
        (λ b s' h. Yields-if Q b _ _ s' q tt)

  read_body-Complete :
      (block : Option Block) (vallen : ℕ) (s : State)
      → Yields (Complete block vallen) (read_body os block vallen s)
  unfolding read_body AfterFill
  read_body-Complete block vallen s =
      Yields-until (AfterFill block vallen) (Complete block vallen) (fill os block vallen) _ s
        (fill-AfterFill block vallen s) (λ v s' h. Yields-newline (Complete block vallen) v s' h)
        (λ v s'. tt) (λ v s' h. tt) (λ v s'. tt)

  value-Taken :
      {A : Type 0} (used used' need vallen : ℕ) (make : Bytes → A) (size : A → ℕ) (Q : A → Type 0)
      (block : Option Block) (value : Option Bytes)
      → ((v : Bytes) → length v ≡ vallen → (size (make v) ≡ need) × Q (make v))
      → Placed heapsize used need (block, used')
      → Complete block vallen value
      → Taken heapsize used size Q (Option.map make value, used')
  value-Taken used used' need vallen make size Q block none made p c = tt
  value-Taken used used' need vallen make size Q none (some v) made p c = absurd (omega (arith, c))
  value-Taken used used' need vallen make size Q (some b) (some v) made p c =
      (omega (arith, p.0, (made v c).0), p.1, (made v c).1)

  pub read_value-Taken :
      {A : Type 0} (used extra vallen : ℕ) (make : Bytes → A) (size : A → ℕ) (Q : A → Type 0)
      (s : State)
      → used ≤ heapsize
      → extra < 2 ^ 32
      → vallen < 2 ^ 64
      → ((v : Bytes)
          → length v ≡ vallen
          → (size (make v) ≡ struct_size + extra + vallen) × Q (make v))
      → Yields (Taken heapsize used size Q) (read_value os (some heapsize) used extra vallen make s)
  unfolding read_value
  read_value-Taken used extra vallen make size Q s l le lv made =
      Yields-bind (Placed heapsize used (struct_size + extra + vallen)) (Taken heapsize used size Q)
        (alloc_object os (some heapsize) used extra vallen) _ s
        (alloc_object-Placed used extra vallen s l le lv)
        λ (block, used') s' p.
          Yields-bind (Complete block vallen) (Taken heapsize used size Q)
            (read_body os block vallen) _ s' (read_body-Complete block vallen s')
            (λ value s'' c.
              value-Taken used used' (struct_size + extra + vallen) vallen make size Q block value
                made p c)
