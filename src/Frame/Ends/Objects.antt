-- ===== src/Frame/Ends/Objects.antt =====
-- The functions that read one object of a frame come to an end.
use bw2c.Base.{
  ℕ, zero, suc, ◌+◌, ◌-◌, ◌%◌, ◌≤◌, Bool, true, false, Option, none, some, ltb, leb, if◌then◌else◌,
  Bool-cases, inl, inr, arith, Bytes, length,
}
use bw2c.Clib.{cstr}
use bw2c.Run.{malformed_frame, Cmd, pure, fail, ◌>>=◌}
use bw2c.Run.Ends.{Ends, Ends-bind}
use bw2c.Os.{Source}
use bw2c.Utils.Ends.{
  full, Ends-receive, read_until_char-Ends, drop_until_char-Ends, read_until_full-Ends,
  drop_full_array-Ends,
}
use bw2c.Utils.Reading.{
  Until, array_full, eof_reached, char_found, until_error, read_until_char, drop_until_char,
  read_until_full, drop_full_array,
}
use bw2c.Frame.Read.{
  Block, read_token, heap_alloc, consume_newline, fill, read_body, alloc_object, read_value,
  read_kv, parse_ponum, read_po, read_ro, struct_size, size_mod,
}

module _ (os : Source) where
  open os use {State, malloc, incoming, malloc_keeps}

  -- One case for each status.
  pub Ends-until :
      {A B : Type 0} (n : ℕ) (used : Until × A → ℕ) (used' : B → ℕ) (m : Cmd State (Until × A))
      (f : Until × A → Cmd State B) (s : State)
      → Ends os n used (m s)
      → ((a : A) (s' : State)
          → length (incoming s') + used (array_full, a) ≤ n
          → Ends os n used' (f (array_full, a) s'))
      → ((a : A) (s' : State) → length (incoming s') ≤ n → Ends os n used' (f (eof_reached, a) s'))
      → ((a : A) (s' : State)
          → length (incoming s') + used (char_found, a) ≤ n
          → Ends os n used' (f (char_found, a) s'))
      → ((a : A) (s' : State) → length (incoming s') ≤ n → Ends os n used' (f (until_error, a) s'))
      → Ends os n used' ((m >>= f) s)
  Ends-until n used used' m f s h on_full on_eof on_char on_error =
      Ends-bind os n used used' m f s h λ (status, a) s'.
        elim status
          as (λ u. length (incoming s') + used (u, a) ≤ n → Ends os n used' (f (u, a) s')) [
            | array_full ↦ λ h'. on_full a s' h'
            | eof_reached ↦ λ h'. on_eof a s' (omega arith)
            | char_found ↦ λ h'. on_char a s' h'
            | until_error ↦ λ h'. on_error a s' (omega arith)
          ]

  -- Two commands that end, one after the other.
  pub then-Ends :
      {A B : Type 0} (n : ℕ) (m : Cmd State A) (f : A → Cmd State B) (s : State)
      → Ends os n (λ a. 0) (m s)
      → ((a : A) (s' : State) → length (incoming s') ≤ n → Ends os n (λ b. 0) (f a s'))
      → Ends os n (λ b. 0) ((m >>= f) s)
  then-Ends n m f s h k = Ends-bind os n (λ a. 0) (λ b. 0) m f s h (λ a s' h'. k a s' (omega arith))

  pub Ends-if :
      {A : Type 0} (n : ℕ) (b : Bool) (m m' : Cmd State A) (s : State)
      → Ends os n (λ a. 0) (m s)
      → Ends os n (λ a. 0) (m' s)
      → Ends os n (λ a. 0) ((if b then m else m') s)
  Ends-if n true m m' s h h' = h
  Ends-if n false m m' s h h' = h'

  read_token-Ends :
      (buflen delimiter n : ℕ) (s : State)
      → length (incoming s) ≤ n
      → Ends os n (λ a. 0) (read_token os buflen delimiter s)
  unfolding read_token
  read_token-Ends zero delimiter n s h = h
  read_token-Ends (suc k) delimiter n s h =
      Ends-until n (λ a. 0) (λ a. 0) (read_until_char os k delimiter) _ s
        (read_until_char-Ends os k delimiter n s h)
        (λ a s' h'.
          Ends-until n (λ a. 0) (λ a. 0) (drop_until_char os 1 delimiter false) _ s'
            (drop_until_char-Ends os 0 delimiter n s' (omega arith)) (λ b s'' h''. h'')
            (λ b s'' h''. h'') (λ b s'' h''. omega arith) (λ b s'' h''. h''))
        (λ a s' h'. h') (λ a s' h'. omega arith) (λ a s' h'. h')

  heap_alloc-Ends :
      (heap : Option ℕ) (used size n : ℕ) (s : State)
      → length (incoming s) ≤ n
      → Ends os n (λ a. 0) (heap_alloc os heap used size s)
  unfolding heap_alloc
  heap_alloc-Ends none used size n s h = rw (malloc_keeps size s) (omega arith)
  heap_alloc-Ends (some heapsize) used size n s h =
      elim (Bool-cases (ltb ((heapsize + size_mod - used) % size_mod) size)) [
        | inl e ↦ rw e (omega arith)
        | inr e ↦ rw e (omega arith)
      ]

  consume_newline-Ends :
      (n : ℕ) (s : State) → length (incoming s) ≤ n → Ends os n (λ a. 0) (consume_newline os s)
  unfolding consume_newline
  consume_newline-Ends n s h =
      Ends-receive os n 1 (λ a. 0) _ s (omega arith) h (λ s' h'. omega arith) (λ s' h'. omega arith)
        (λ c cs s' h'. omega arith)

  fill-Ends :
      (block : Option Block) (vallen n : ℕ) (s : State)
      → length (incoming s) ≤ n
      → Ends os n (λ a. 0) (fill os block vallen s)
  unfolding fill
  fill-Ends none vallen n s h =
      Ends-bind os n (λ a. 0) (λ a. 0) (drop_full_array os vallen) _ s
        (drop_full_array-Ends os vallen n s h) (λ a s' h'. h')
  fill-Ends (some b) vallen n s h =
      Ends-bind os n (full vallen) (λ a. 0) (read_until_full os vallen) _ s
        (read_until_full-Ends os vallen n s h) (λ a s' h'. omega arith)

  -- The newline behind what was read.
  pub newline-Ends :
      {A : Type 0} (a : A) (n : ℕ) (s : State)
      → length (incoming s) ≤ n
      → Ends os n
          (λ b. 0)
          ((consume_newline os >>= (λ newline. if newline then pure a else fail malformed_frame)) s)
  newline-Ends a n s h =
      then-Ends n (consume_newline os) _ s (consume_newline-Ends n s h)
        λ b s' h'. Ends-if n b _ _ s' (omega arith) h'

  read_body-Ends :
      (block : Option Block) (vallen n : ℕ) (s : State)
      → length (incoming s) ≤ n
      → Ends os n (λ a. 0) (read_body os block vallen s)
  unfolding read_body
  read_body-Ends block vallen n s h =
      Ends-until n (λ a. 0) (λ a. 0) (fill os block vallen) _ s (fill-Ends block vallen n s h)
        (λ a s' h'. newline-Ends a n s' (omega arith)) (λ a s' h'. h') (λ a s' h'. omega arith)
        (λ a s' h'. h')

  alloc_object-Ends :
      (heap : Option ℕ) (used extra vallen n : ℕ) (s : State)
      → length (incoming s) ≤ n
      → Ends os n (λ a. 0) (alloc_object os heap used extra vallen s)
  unfolding alloc_object
  alloc_object-Ends heap used extra vallen n s h =
      elim (Bool-cases (leb vallen ((struct_size + extra + vallen) % size_mod))) [
        | inl e ↦ rw e (heap_alloc-Ends heap used ((struct_size + extra + vallen) % size_mod) n s h)
        | inr e ↦ rw e (omega arith)
      ]

  read_value-Ends :
      {A : Type 0} (heap : Option ℕ) (used extra vallen : ℕ) (make : Bytes → A) (n : ℕ) (s : State)
      → length (incoming s) ≤ n
      → Ends os n (λ a. 0) (read_value os heap used extra vallen make s)
  unfolding read_value
  read_value-Ends heap used extra vallen make n s h =
      then-Ends n (alloc_object os heap used extra vallen) _ s
        (alloc_object-Ends heap used extra vallen n s h)
        λ (block, used') s' h'.
          then-Ends n (read_body os block vallen) _ s' (read_body-Ends block vallen n s' h')
            (λ v s'' h''. omega arith)

  pub read_kv-Ends :
      (heap : Option ℕ) (used n : ℕ) (s : State)
      → length (incoming s) ≤ n
      → Ends os n (λ a. 0) (read_kv os heap used s)
  unfolding read_kv
  read_kv-Ends heap used n s h =
      then-Ends n (read_token os _ _) _ s (read_token-Ends _ _ n s h) λ key s₁ h₁.
        then-Ends n (read_token os _ _) _ s₁ (read_token-Ends _ _ n s₁ h₁)
          λ len s₂ h₂. read_value-Ends heap used _ _ _ n s₂ h₂

  pub read_ro-Ends :
      (heap : Option ℕ) (used n : ℕ) (s : State)
      → length (incoming s) ≤ n
      → Ends os n (λ a. 0) (read_ro os heap used s)
  unfolding read_ro
  read_ro-Ends heap used n s h =
      then-Ends n (read_token os _ _) _ s (read_token-Ends _ _ n s h) λ ronum s₁ h₁.
        then-Ends n (read_token os _ _) _ s₁ (read_token-Ends _ _ n s₁ h₁)
          λ len s₂ h₂. read_value-Ends heap used _ _ _ n s₂ h₂

  parse_ponum-Ends :
      (ponumstr : Bytes) (n : ℕ) (s : State)
      → length (incoming s) ≤ n
      → Ends os n (λ a. 0) (parse_ponum os ponumstr s)
  unfolding parse_ponum
  parse_ponum-Ends ponumstr n s h = ground arith

  pub read_po-Ends :
      (heap : Option ℕ) (used n : ℕ) (s : State)
      → length (incoming s) ≤ n
      → Ends os n (λ a. 0) (read_po os heap used s)
  unfolding read_po
  read_po-Ends heap used n s h =
      then-Ends n (read_token os _ _) _ s (read_token-Ends _ _ n s h) λ ponumstr s₁ h₁.
        then-Ends n (read_token os _ _) _ s₁ (read_token-Ends _ _ n s₁ h₁) λ len s₂ h₂.
          then-Ends n (parse_ponum os (cstr ponumstr)) _ s₂
            (parse_ponum-Ends (cstr ponumstr) n s₂ h₂)
            λ ponum s₃ h₃. read_value-Ends heap used _ _ _ n s₃ h₃
