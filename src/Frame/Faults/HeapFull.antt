-- ===== src/Frame/Faults/HeapFull.antt =====
-- A header that the frame heap has no room for: `bw2_read_KV` returns 0 with a null object.
use bw2c.Base.{
  ℕ, zero, suc, ◌+◌, ◌-◌, ◌%◌, ◌^◌, ◌≤◌, ◌<◌, ◌≡◌, refl, ap, true, none, some, [], ◌∷◌, ◌++◌, arith,
  le→leb, lt→ltb, Bytes, codes, length,
}
use bw2c.Run.{ok, fault}
use bw2c.Run.Reads.{Reads, Reads-pure, Reads-bind, Reads-last}
use bw2c.Clib.{decimal, cstr_lem, strcmp_eq, strlen}
use bw2c.Os.{Source}
use bw2c.Utils.Reading.{array_full, drop_full_loop, drop_full_array}
use bw2c.Utils.Reads.{receive-Reads, read_until_full-Reads}
use bw2c.Frame.{Header, Frame}
use bw2c.Frame.Wire.{token, object, kv_bytes, IsWireHeader}
use bw2c.Frame.Objects.{
  read_token-Reads, consume_newline-Reads, read_length-Reads, strtoull-cstr-decimal,
}
use bw2c.Frame.Read.{
  struct_size, size_mod, fill, read_body, heap_alloc, alloc_object, read_value, read_kv,
  read_objects,
}

module _ (os : Source) where
  open os use {State, incoming}

  drop_full_loop-Reads :
      (f : ℕ) (bs : Bytes)
      → length bs ≤ f
      → Reads os bs (drop_full_loop os f (length bs)) (array_full, length bs)
  unfolding drop_full_loop
  drop_full_loop-Reads f [] h s rest e = (s, refl, e)
  drop_full_loop-Reads zero (b ∷ bs) h s rest e = absurd (omega arith)
  drop_full_loop-Reads (suc f) (b ∷ bs) h s rest e =
      let (s₁, got, left) = receive-Reads os b s (bs ++ rest) e in
      let (s₂, more, done) = drop_full_loop-Reads f bs (omega arith) s₁ rest left in
      let one : suc (length bs) - 1 ≡ length bs = omega arith in
      (s₂, rw (got, one, more) (ap (λ n. ok (array_full, n) s₂) (omega arith)), done)

  read_body-none :
      (body : Bytes) → Reads os (token body b'\n') (read_body os none (length body)) none
  unfolding read_body fill drop_full_array
  read_body-none body =
      Reads-bind os body (b'\n' ∷ []) _ _ (array_full, none) none
        (Reads-last os body _ _ (array_full, length body) (array_full, none)
          (drop_full_loop-Reads (length body) body (omega arith))
          (Reads-pure os (array_full, none)))
        (Reads-last os (b'\n' ∷ []) _ _ true none (consume_newline-Reads os) (Reads-pure os none))

  alloc_object_full :
      (heapsize used extra vallen : ℕ)
      → extra < 2 ^ 32
      → vallen < 2 ^ 32
      → used ≤ heapsize
      → heapsize < size_mod
      → heapsize < used + (struct_size + extra + vallen)
      → Reads os [] (alloc_object os (some heapsize) used extra vallen) (none, used)
  unfolding alloc_object heap_alloc
  alloc_object_full heapsize used extra vallen he hv le lt full s rest e =
      let whole : (struct_size + extra + vallen) % size_mod ≡ struct_size + extra + vallen =
        omega arith in
      let left : (heapsize + size_mod - used) % size_mod ≡ heapsize - used = omega arith in
      (
        s,
        rw (
          whole,
          le→leb vallen (struct_size + extra + vallen) (omega arith),
          left,
          lt→ltb (heapsize - used) (struct_size + extra + vallen) (omega arith),
        ),
        e,
      )

  read_value_full :
      {A : Type 0} (heapsize used extra : ℕ) (body : Bytes) (make : Bytes → A)
      → extra < 2 ^ 32
      → length body < 10 ^ 9
      → used ≤ heapsize
      → heapsize < size_mod
      → heapsize < used + (struct_size + extra + length body)
      → Reads os
          (token body b'\n')
          (read_value os (some heapsize) used extra (length body) make)
          (none, used)
  unfolding read_value
  read_value_full heapsize used extra body make he hl le lt full =
      Reads-bind os [] (token body b'\n') _ _ (none, used) (none, used)
        (alloc_object_full heapsize used extra (length body) he (omega arith) le lt full)
        (Reads-last os (token body b'\n') _ _ none (none, used) (read_body-none body)
          (Reads-pure os (none, used)))

  read_kv_full :
      (heapsize used : ℕ) (h : Header)
      → IsWireHeader h
      → used ≤ heapsize
      → heapsize < size_mod
      → heapsize < used + (struct_size + (length h.key + 1) + length h.value)
      → Reads os (object h.key h.value) (read_kv os (some heapsize) used) (none, used)
  unfolding read_kv strlen
  read_kv_full heapsize used h w le lt full =
      let short : length h.value < 10 ^ 9 = rw w.len_exact at (w.len_short) in
      let small = w.key_short in
      Reads-bind os _ _ _ _ h.key _ (read_token-Reads os 31 b' ' h.key w.key_short w.no_space) (
        Reads-bind os _ _ _ _ (decimal (length h.value)) _
          (read_length-Reads os (length h.value) short)
          (rw (cstr_lem h.key w.no_nul, strtoull-cstr-decimal (length h.value) (omega arith))
            (read_value_full heapsize used (length h.key + 1) h.value _ (omega arith) short le lt
              full)))

  -- Where a header arrives that has no room in what is left of the frame heap, `bw2_readFrame` neither goes on
  -- without it nor fails: it writes through the null pointer that `bw2_read_KV` returned with the code 0.
  pub read_objects-heap_full :
      (f heapsize used : ℕ) (frame : Frame) (h : Header) (rest : Bytes) (s : State)
      → IsWireHeader h
      → used ≤ heapsize
      → heapsize < size_mod
      → heapsize < used + (struct_size + (length h.key + 1) + length h.value)
      → incoming s ≡ kv_bytes h ++ rest
      → read_objects os (suc f) (some heapsize) used frame s ≡ fault
  unfolding read_objects kv_bytes strcmp_eq
  read_objects-heap_full f heapsize used frame h rest s w le lt full i =
      let (s₁, e₁, i₁) =
        read_until_full-Reads os (codes "kv ") s (object h.key h.value ++ rest) i in
      let (s₂, e₂, i₂) = read_kv_full heapsize used h w le lt full s₁ rest i₁ in rw (e₁, e₂) refl
