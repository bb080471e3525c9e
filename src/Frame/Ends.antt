-- ===== src/Frame/Ends.antt =====
-- The loops of `bw2_readFrame` come to an end on every input.
mod Objects
use bw2c.Base.{
  ℕ, zero, suc, ◌+◌, ◌-◌, ◌%◌, ◌≤◌, ◌<◌, ◌≡◌, refl, ◌⊎◌, Bool, true, false, Option, none, some, ltb,
  leb, if◌then◌else◌, Bool-cases, inl, inr, arith, Bytes, codes, length,
}
use bw2c.Clib.{cstr, strcmp_eq}
use bw2c.Run.{
  malformed_frame, Error, Run, ok, err, fault, spin, Cmd, pure, fail, ◌>>=◌, unless_heap_full,
}
use bw2c.Run.Ends.{Ends, Ends-bind, Ends-unless, Ends-shift, Ends-mono}
use bw2c.Os.{Source}
use bw2c.Utils.Ends.{
  full, Ends-receive, read_until_char-Ends, drop_until_char-Ends, read_until_full-Ends,
  drop_full_array-Ends,
}
use bw2c.Utils.Reading.{
  Until, array_full, eof_reached, char_found, until_error, read_until_char, drop_until_char,
  read_until_full, drop_full_array,
}
use bw2c.Frame.{Frame}
use bw2c.Frame.Read.{
  Block, read_token, heap_alloc, consume_newline, fill, read_body, alloc_object, read_value,
  read_kv, parse_ponum, read_po, read_ro, read_objects, read_frame, header_ok, parse_header, linked,
  struct_size, size_mod,
}
use bw2c.Frame.Ends.Objects.{
  Ends-until, then-Ends, Ends-if, newline-Ends, read_kv-Ends, read_ro-Ends, read_po-Ends,
}

module _ (os : Source) where
  open os use {State, incoming}

  -- An object that was read takes its place in the frame.
  object-Ends :
      {A : Type 0} (n : ℕ) (r : Run State (Option A × ℕ)) (put : A → Frame)
      (again : ℕ → Frame → Cmd State Frame) (used : ℕ) (frame : Frame)
      → Ends os n (λ a. 0) r
      → ((used' : ℕ) (frame' : Frame) (s : State)
          → length (incoming s) ≤ n
          → Ends os n (λ a. 0) (again used' frame' s))
      → Ends os n
          (λ a. 0)
          (unless_heap_full r
            (λ (o, used'). linked os o λ a. again used' (put a))
            (again used frame))
  object-Ends n r put again used frame h k =
      Ends-unless os n (λ a. 0) (λ a. 0) r _ _ h
        (λ (o, used') s h'.
          elim o as (λ o. Ends os n (λ a. 0) (linked os o (λ a. again used' (put a)) s)) [
            | none ↦ tt
            | some a ↦ k used' (put a) s (omega arith)
          ])
        (λ s h'. k used frame s h')

  -- Every round reads an object's type, of three bytes.
  read_objects-Ends :
      (f : ℕ) (heap : Option ℕ) (used : ℕ) (frame : Frame) (s : State)
      → length (incoming s) < f
      → Ends os (length (incoming s)) (λ a. 0) (read_objects os f heap used frame s)
  unfolding read_objects
  read_objects-Ends zero heap used frame s lt = absurd (omega arith)
  read_objects-Ends (suc f) heap used frame s lt =
      let n = length (incoming s) in
      Ends-until os n (full 3) (λ a. 0) (read_until_full os 3) _ s
        (read_until_full-Ends os 3 n s (omega arith))
        (λ objtype s' h'.
          let n' = length (incoming s') in
          let again : (used' : ℕ) (frame' : Frame) (s'' : State)
              → length (incoming s'') ≤ n'
              → Ends os n' (λ a. 0) (read_objects os f heap used' frame' s'') =
            λ used' frame' s'' h''.
              Ends-mono os (length (incoming s'')) n' (λ a. 0) _ h''
                (read_objects-Ends f heap used' frame' s'' (omega arith)) in
          Ends-mono os n' n (λ a. 0) _ (omega arith)
            (Ends-if os n' (strcmp_eq objtype (codes "kv ")) _ _ s'
              (object-Ends n' _ _ (λ u fr. read_objects os f heap u fr) used frame
                (read_kv-Ends os heap used n' s' (omega arith)) again)
              (Ends-if os n' (strcmp_eq objtype (codes "ro ")) _ _ s'
                (object-Ends n' _ _ (λ u fr. read_objects os f heap u fr) used frame
                  (read_ro-Ends os heap used n' s' (omega arith)) again)
                (Ends-if os n' (strcmp_eq objtype (codes "po ")) _ _ s'
                  (object-Ends n' _ _ (λ u fr. read_objects os f heap u fr) used frame
                    (read_po-Ends os heap used n' s' (omega arith)) again)
                  (Ends-if os n' (strcmp_eq objtype (codes "end")) _ _ s'
                    (newline-Ends os frame n' s' (omega arith)) (omega arith))))))
        (λ a s' h'. h') (λ a s' h'. omega arith) (λ a s' h'. h')

  first_line-Ends :
      (fuel : ℕ) (heap : Option ℕ) (header : Bytes) (n : ℕ) (s : State)
      → n < fuel
      → length (incoming s) + 27 ≤ n
      → Ends os n
          (λ f. 27)
          ((if header_ok header
              then read_objects os fuel heap 0 (parse_header header)
              else fail malformed_frame)
            s)
  first_line-Ends fuel heap header n s lt h = elim (Bool-cases (header_ok header)) [
    | inl e ↦ rw e (
        Ends-shift os (length (incoming s)) 27 n (λ f. 0) _ h
          (read_objects-Ends fuel heap 0 (parse_header header) s (omega arith)))
    | inr e ↦ rw e (omega arith)
  ]

  pub read_frame-Ends :
      (fuel : ℕ) (heap : Option ℕ) (s : State)
      → length (incoming s) < fuel
      → Ends os (length (incoming s)) (λ f. 27) (read_frame os fuel heap s)
  unfolding read_frame
  read_frame-Ends fuel heap s lt =
      let n = length (incoming s) in
      let checked = λ (header : Bytes) (s' : State) (h' : length (incoming s') + 27 ≤ n).
        first_line-Ends fuel heap header n s' lt h' in
      Ends-until os n (full 27) (λ f. 27) (read_until_full os 27) _ s
        (read_until_full-Ends os 27 n s (omega arith)) (λ header s' h'. checked header s' h')
        (λ a s' h'. h') (λ header s' h'. checked header s' h') (λ a s' h'. h')

  -- The three ends of a command.
  Ends-cases :
      {A : Type 0} (n used : ℕ) (r : Run State A)
      → Ends os n (λ a. used) r
      → ((a : A) × (s : State) × (r ≡ ok a s) × (length (incoming s) + used ≤ n))
        ⊎ ((e : Error) × (s : State) × (r ≡ err e s) × (length (incoming s) ≤ n))
        ⊎ (r ≡ fault)
  Ends-cases n used (ok a s) h = inl (a, s, refl, h)
  Ends-cases n used (err e s) h = inr (inl (e, s, refl, h))
  Ends-cases n used fault h = inr (inr refl)
  Ends-cases n used spin h = absurd (omega arith)

  -- No loop of `bw2_readFrame` runs for ever: on every input, well-formed or not, and however its bytes arrive,
  -- it returns a frame and has taken at least the first line off the connection, or it returns a code and has
  -- put nothing back, or it follows a null pointer. As many rounds as there are bytes under way, and one
  -- more, are enough.
  pub read_frame_ends :
      (fuel : ℕ) (heap : Option ℕ) (s : State)
      → length (incoming s) < fuel
      → ((frame : Frame) × (s' : State) × (read_frame os fuel heap s ≡ ok frame s')
          × (length (incoming s') + 27 ≤ length (incoming s)))
        ⊎ ((e : Error) × (s' : State) × (read_frame os fuel heap s ≡ err e s')
            × (length (incoming s') ≤ length (incoming s)))
        ⊎ (read_frame os fuel heap s ≡ fault)
  read_frame_ends fuel heap s lt =
      Ends-cases (length (incoming s)) 27 (read_frame os fuel heap s)
        (read_frame-Ends fuel heap s lt)
