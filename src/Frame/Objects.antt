-- ===== src/Frame/Objects.antt =====
-- The functions that read one object take exactly its bytes off the connection.
use bw2c.Base.{
  ℕ, suc, ◌+◌, ◌%◌, ◌^◌, ◌≤◌, ◌<◌, ◌≡◌, ◌≢◌, refl, ◌∙◌, true, false, Option, none, some, [], ◌∷◌,
  arith, append-nil, le→leb, Bytes, length, All,
}
use bw2c.Clib.{cstr, cstr_lem, NoNul, strlen, strtoull, strchr, decimal}
use bw2c.Run.Reads.{Reads, Reads-pure, Reads-bind, Reads-last}
use bw2c.Os.{Source, bytes}
use bw2c.Utils.Reading.{array_full, char_found}
use bw2c.Utils.Reads.{receive-Reads, read_until_char-Reads, read_until_full-Reads}
use bw2c.Frame.{Header, PayloadObj, RoutingObj}
use bw2c.Frame.Length.{length-decimal-le}
use bw2c.Clib.RoundTrip.{strtoull-decimal, decimal-IsDigit, IsDigit}
use bw2c.Clib.Strtoull.{starts_with_digit}
use bw2c.Frame.Wire.{token, object, IsWireHeader, IsWirePo, IsWireRo}
use bw2c.Frame.Read.{
  Block, in_heap, malloced, struct_size, size_mod, read_token, heap_alloc, alloc_object,
  consume_newline, fill, read_value, read_body, read_kv, read_po, read_ro, parse_ponum,
}

module _ (os : Source) where
  open os use {State, malloc, incoming, malloc_keeps}

  pub read_token-Reads :
      (n d : ℕ) (key : Bytes)
      → length key < n
      → All (λ c. c ≢ d) key
      → Reads os (token key d) (read_token os (suc n) d) key
  unfolding read_token
  read_token-Reads n d key short clean =
      Reads-last os (token key d) _ _ (char_found, key) key
        (read_until_char-Reads os n d key short clean) (Reads-pure os key)

  pub consume_newline-Reads : Reads os (b'\n' ∷ []) (consume_newline os) true
  unfolding consume_newline
  consume_newline-Reads =
      Reads-last os (b'\n' ∷ []) _ _ (bytes b'\n' []) true (receive-Reads os b'\n')
        (Reads-pure os true)

  -- Room for `need` more bytes: in the frame heap, or because `malloc` has always room.
  abbrev pub HasRoom : Option ℕ → ℕ → ℕ → Type 0
  HasRoom none used need = (n : ℕ) (s : State) → (malloc n s).0 ≡ true
  HasRoom (some heapsize) used need = (used + need ≤ heapsize) × (heapsize < size_mod)

-- Where the next block goes, and what is used after it.
abbrev pub next_block : Option ℕ → ℕ → Block
next_block none used = malloced
next_block (some heapsize) used = in_heap used

abbrev pub used_after : Option ℕ → ℕ → ℕ → ℕ
used_after none used size = used
used_after (some heapsize) used size = used + size

module _ (os : Source) where
  open os use {State, malloc, incoming, malloc_keeps}

  pub HasRoom-split :
      (heap : Option ℕ) (used a b : ℕ)
      → HasRoom os heap used (a + b)
      → HasRoom os heap used a × HasRoom os heap (used_after heap used a) b
  HasRoom-split none used a b h = (h, h)
  HasRoom-split (some size) used a b h = omega arith

  heap_alloc-Reads :
      (heap : Option ℕ) (used size : ℕ)
      → HasRoom os heap used size
      → Reads os []
          (heap_alloc os heap used size)
          (some (next_block heap used), used_after heap used size)
  unfolding heap_alloc
  heap_alloc-Reads none used size room s rest e =
      ((malloc size s).1, rw (room size s), malloc_keeps size s ∙ e)
  heap_alloc-Reads (some heapsize) used size room s rest e = (s, ground arith, e)

  pub alloc_object-Reads :
      (heap : Option ℕ) (used extra vallen : ℕ)
      → extra < 2 ^ 32
      → vallen < 2 ^ 32
      → HasRoom os heap used (struct_size + extra + vallen)
      → Reads os []
          (alloc_object os heap used extra vallen)
          (some (next_block heap used), used_after heap used (struct_size + extra + vallen))
  unfolding alloc_object
  alloc_object-Reads heap used extra vallen he hv room =
      let whole : (struct_size + extra + vallen) % size_mod ≡ struct_size + extra + vallen =
        omega arith in
      rw (whole, le→leb vallen (struct_size + extra + vallen) (omega arith))
        (heap_alloc-Reads heap used (struct_size + extra + vallen) room)

  pub read_body-Reads :
      (block : Block) (body : Bytes)
      → Reads os (token body b'\n') (read_body os (some block) (length body)) (some body)
  unfolding read_body fill
  read_body-Reads block body =
      Reads-bind os body (b'\n' ∷ []) _ _ (array_full, some body) (some body)
        (Reads-last os body _ _ (array_full, body) (array_full, some body)
          (read_until_full-Reads os body) (Reads-pure os (array_full, some body)))
        (Reads-last os (b'\n' ∷ []) _ _ true (some body) (consume_newline-Reads os)
          (Reads-pure os (some body)))

pub All-ne : (d : ℕ) (ds : Bytes) → d < b'0' → All IsDigit ds → All (λ c. c ≢ d) ds
All-ne d [] h a = tt
All-ne d (c ∷ ds) h a = (omega arith, All-ne d ds h a.1)

pub decimal-All-ne : (d n : ℕ) → d < b'0' → All (λ c. c ≢ d) (decimal n)
decimal-All-ne d n h = All-ne d (decimal n) h (decimal-IsDigit n)

cstr-decimal : (n : ℕ) → cstr (decimal n) ≡ decimal n
cstr-decimal n = cstr_lem (decimal n) (decimal-All-ne 0 n (omega arith))

pub strtoull-cstr-decimal :
    (n : ℕ)
    → n < 2 ^ 64
    → strtoull (cstr (decimal n)) ≡ record { value = n; rest = []; erange = false }
unfolding starts_with_digit
strtoull-cstr-decimal n h =
    rw cstr-decimal (rw append-nil at (strtoull-decimal n [] (omega arith) refl))

module _ (os : Source) where
  open os use {State}

  -- A length of at most nine digits.
  pub read_length-Reads :
      (n : ℕ) → n < 10 ^ 9 → Reads os (token (decimal n) b'\n') (read_token os 11 b'\n') (decimal n)
  read_length-Reads n h =
      read_token-Reads os 10 b'\n' (decimal n) (omega (arith, length-decimal-le 8 n h))
        (decimal-All-ne b'\n' n (omega arith))

  -- A block, and the value into it.
  read_value-Reads :
      {A : Type 0} (heap : Option ℕ) (used extra : ℕ) (body : Bytes) (make : Bytes → A)
      → extra < 2 ^ 32
      → length body < 10 ^ 9
      → HasRoom os heap used (struct_size + extra + length body)
      → Reads os
          (token body b'\n')
          (read_value os heap used extra (length body) make)
          (some (make body), used_after heap used (struct_size + extra + length body))
  unfolding read_value
  read_value-Reads heap used extra body make he hl room =
      let used' = used_after heap used (struct_size + extra + length body) in
      Reads-bind os [] (token body b'\n') _ _ (some (next_block heap used), used')
        (some (make body), used')
        (alloc_object-Reads os heap used extra (length body) he (omega arith) room)
        (Reads-last os (token body b'\n') _ _ (some body) (some (make body), used')
          (read_body-Reads os (next_block heap used) body)
          (Reads-pure os (some (make body), used')))

  kv_of :
      (heap : Option ℕ) (used : ℕ) (key value : Bytes)
      → NoNul key
      → All (λ c. c ≢ b' ') key
      → length key < 31
      → length value < 10 ^ 9
      → HasRoom os heap used (struct_size + (length key + 1) + length value)
      → Reads os (object key value) (read_kv os heap used) (
        some (record { key = key; len = length value; value = value }),
        used_after heap used (struct_size + (length key + 1) + length value),
      )
  unfolding read_kv strlen
  kv_of heap used key value no_nul no_space short fits room =
      Reads-bind os _ _ _ _ key _ (read_token-Reads os 31 b' ' key short no_space) (
        Reads-bind os _ _ _ _ (decimal (length value)) _ (read_length-Reads (length value) fits) (
          rw (cstr_lem key no_nul, strtoull-cstr-decimal (length value) (omega arith))
            (read_value-Reads heap used (length key + 1) value _ (omega arith) fits room)))

  pub read_kv-Reads :
      (heap : Option ℕ) (used : ℕ) (h : Header)
      → IsWireHeader h
      → HasRoom os heap used (struct_size + (length h.key + 1) + h.len)
      → Reads os
          (object h.key h.value)
          (read_kv os heap used)
          (some h, used_after heap used (struct_size + (length h.key + 1) + h.len))
  read_kv-Reads heap used h w room = rw w.len_exact (
      kv_of heap used h.key h.value w.no_nul w.no_space w.key_short (omega arith)
        (rw w.len_exact at room))

  parse_ponum-Reads :
      (n : ℕ) → n < 2 ^ 32 → Reads os [] (parse_ponum os (cstr (b':' ∷ decimal n))) n
  unfolding parse_ponum strchr starts_with_digit
  parse_ponum-Reads n h s rest e =
      let number = rw append-nil at (strtoull-decimal n [] (omega arith) refl) in
      let small : n % 2 ^ 32 ≡ n = omega arith in
      let no_nul : NoNul (b':' ∷ decimal n) = (omega arith, decimal-All-ne 0 n (omega arith)) in
      (s, rw (cstr_lem (b':' ∷ decimal n) no_nul, number, small), e)

  po_of :
      (heap : Option ℕ) (used n : ℕ) (body : Bytes)
      → n < 2 ^ 32
      → length body < 10 ^ 9
      → HasRoom os heap used (struct_size + 0 + length body)
      → Reads os (object (b':' ∷ decimal n) body) (read_po os heap used) (
        some (record { ponum = n; polen = length body; po = body }),
        used_after heap used (struct_size + 0 + length body),
      )
  unfolding read_po
  po_of heap used n body small fits room =
      Reads-bind os (token (b':' ∷ decimal n) b' ') _ _ _ (b':' ∷ decimal n) _
        (read_token-Reads os 27 b' ' (b':' ∷ decimal n)
          (omega (arith, length-decimal-le 9 n (omega arith)))
          (omega arith, decimal-All-ne b' ' n (omega arith)))
        (Reads-bind os _ (token body b'\n') _ _ (decimal (length body)) _
          (read_length-Reads (length body) fits)
          (Reads-bind os [] (token body b'\n') _ _ n _ (parse_ponum-Reads n small) (
            rw (strtoull-cstr-decimal (length body) (omega arith))
              (read_value-Reads heap used 0 body _ (omega arith) fits room))))

  pub read_po-Reads :
      (heap : Option ℕ) (used : ℕ) (p : PayloadObj)
      → IsWirePo p
      → HasRoom os heap used (struct_size + 0 + p.polen)
      → Reads os
          (object (b':' ∷ decimal p.ponum) p.po)
          (read_po os heap used)
          (some p, used_after heap used (struct_size + 0 + p.polen))
  read_po-Reads heap used p w room =
      rw w.len_exact
        (po_of heap used p.ponum p.po w.ponum_fits (omega arith) (rw w.len_exact at room))

  ro_of :
      (heap : Option ℕ) (used n : ℕ) (body : Bytes)
      → n < 100
      → length body < 10 ^ 9
      → HasRoom os heap used (struct_size + 0 + length body)
      → Reads os (object (decimal n) body) (read_ro os heap used) (
        some (record { ronum = n; rolen = length body; ro = body }),
        used_after heap used (struct_size + 0 + length body),
      )
  unfolding read_ro
  ro_of heap used n body small fits room =
      let octet : n % 2 ^ 8 ≡ n = omega arith in
      Reads-bind os _ _ _ _ (decimal n) _
        (read_token-Reads os 3 b' ' (decimal n) (omega (arith, length-decimal-le 1 n (omega arith)))
          (decimal-All-ne b' ' n (omega arith)))
        (Reads-bind os _ _ _ _ (decimal (length body)) _ (read_length-Reads (length body) fits) (
          rw
            (
              strtoull-cstr-decimal (length body) (omega arith),
              strtoull-cstr-decimal n (omega arith),
              octet,
            )
            (read_value-Reads heap used 0 body _ (omega arith) fits room)))

  pub read_ro-Reads :
      (heap : Option ℕ) (used : ℕ) (r : RoutingObj)
      → IsWireRo r
      → HasRoom os heap used (struct_size + 0 + r.rolen)
      → Reads os
          (object (decimal r.ronum) r.ro)
          (read_ro os heap used)
          (some r, used_after heap used (struct_size + 0 + r.rolen))
  read_ro-Reads heap used r w room =
      rw w.len_exact
        (ro_of heap used r.ronum r.ro w.ronum_short (omega arith) (rw w.len_exact at room))
