-- ===== src/Frame/Bounded.antt =====
-- Every frame that `bw2_readFrame` returns is whole and lies in the frame heap, whatever the input is.
pub mod Heap
use mathlib.Core.Path.{subst}
use bw2c.Base.{
  ℕ, zero, suc, ◌+◌, ◌≤◌, ◌<◌, ◌≡◌, ◌∙◌, refl, sym, ap, Option, none, some, List, [], ◌∷◌, ◌++◌,
  arith, Bytes, codes, length, All, All-append,
}
use bw2c.Clib.{cstr, strlen, strcmp_eq, strtoull}
use bw2c.Run.{Run, ok, Cmd, unless_heap_full}
use bw2c.Run.Yields.{Yields, Yields-bind, Yields-unless, Yields-if, Yields-any}
use bw2c.Os.{Source}
use bw2c.Utils.Reading.{read_until_full}
use bw2c.Frame.{
  Frame, Header, PayloadObj, RoutingObj, append_kv, append_po, append_ro, frame_header_length,
}
use bw2c.Frame.Bounds.{
  Taken, AtMost, length-cstr-le, strtoull-lt, read_token-AtMost, read_value-Taken, Yields-newline,
  Yields-until,
}
use bw2c.Frame.Read.{
  read_token, parse_ponum, read_kv, read_po, read_ro, linked, read_objects, read_frame, header_ok,
  parse_header, struct_size, size_mod,
}
use bw2c.Frame.RoundTrip.{kvs_need, pos_need, ros_need, frame_need}
use bw2c.Frame.Bounded.Heap.{
  IsWholeHeader, IsWholePo, IsWholeRo, IsBounded, Fills, add_kv-Fills, add_po-Fills, add_ro-Fills,
}

module _ (os : Source) (heapsize : ℕ) (small : heapsize < size_mod) where
  open os use {State}

  read_kv-Taken :
      (used : ℕ) (s : State)
      → used ≤ heapsize
      → Yields
          (Taken heapsize used (λ h. struct_size + (length h.key + 1) + h.len) IsWholeHeader)
          (read_kv os (some heapsize) used s)
  unfolding read_kv strlen
  read_kv-Taken used s l =
      Yields-bind (AtMost 31) _ (read_token os 32 b' ') _ s
        (read_token-AtMost os heapsize small 31 b' ' s)
        λ key s₁ k.
          Yields-bind (λ b. Unit {0}) _ (read_token os 11 b'\n') _ s₁ (Yields-any _)
            λ len s₂ t.
              read_value-Taken os heapsize small used _ (strtoull (cstr len)).value _ _ _ s₂ l
                (omega (arith, k, length-cstr-le key)) (strtoull-lt (cstr len))
                (λ v e. (refl, (omega (arith, k, length-cstr-le key), sym e)))

  read_ro-Taken :
      (used : ℕ) (s : State)
      → used ≤ heapsize
      → Yields
          (Taken heapsize used (λ r. struct_size + 0 + r.rolen) IsWholeRo)
          (read_ro os (some heapsize) used s)
  unfolding read_ro
  read_ro-Taken used s l =
      Yields-bind (λ b. Unit {0}) _ (read_token os 4 b' ') _ s (Yields-any _)
        λ num s₁ k.
          Yields-bind (λ b. Unit {0}) _ (read_token os 11 b'\n') _ s₁ (Yields-any _)
            λ len s₂ t.
              read_value-Taken os heapsize small used 0 (strtoull (cstr len)).value _ _ _ s₂ l
                (omega arith) (strtoull-lt (cstr len)) (λ v e. (refl, sym e))

  read_po-Taken :
      (used : ℕ) (s : State)
      → used ≤ heapsize
      → Yields
          (Taken heapsize used (λ p. struct_size + 0 + p.polen) IsWholePo)
          (read_po os (some heapsize) used s)
  unfolding read_po
  read_po-Taken used s l =
      Yields-bind (λ b. Unit {0}) _ (read_token os 28 b' ') _ s (Yields-any _)
        λ num s₁ k.
          Yields-bind (λ b. Unit {0}) _ (read_token os 11 b'\n') _ s₁ (Yields-any _)
            λ len s₂ t.
              Yields-bind (λ b. Unit {0}) _ (parse_ponum os (cstr num)) _ s₂ (Yields-any _)
                λ ponum s₃ u.
                  read_value-Taken os heapsize small used 0 (strtoull (cstr len)).value _ _ _ s₃ l
                    (omega arith) (strtoull-lt (cstr len)) (λ v e. (refl, sym e))

  -- One object, and the rest of the frame behind it.
  object-IsBounded :
      {A : Type 0} (used : ℕ) (frame : Frame) (size : A → ℕ) (Q : A → Type 0) (put : A → Frame)
      (r : Run State (Option A × ℕ)) (again : ℕ → Frame → Cmd State Frame)
      → Yields (Taken heapsize used size Q) r
      → Fills heapsize used frame
      → ((a : A) (used' : ℕ)
          → Taken heapsize used size Q (some a, used')
          → Fills heapsize used' (put a))
      → ((used' : ℕ) (frame' : Frame) (s : State)
          → Fills heapsize used' frame'
          → Yields (IsBounded heapsize) (again used' frame' s))
      → Yields (IsBounded heapsize) (
          unless_heap_full r
            (λ (o, used'). linked os o λ a. again used' (put a))
            (again used frame))
  object-IsBounded used frame size Q put r again taken fills added k =
      Yields-unless (Taken heapsize used size Q) (IsBounded heapsize) r _ _ taken
        (λ (o, used') s'.
          elim o
            as (λ o.
              Taken heapsize used size Q (o, used')
              → Yields (IsBounded heapsize) (linked os o (λ a. again used' (put a)) s')) [
                | none ↦ λ t. tt
                | some a ↦ λ t. k used' (put a) s' (added a used' t)
              ])
        (λ s'. k used frame s' fills)

  read_objects-IsBounded :
      (f used : ℕ) (frame : Frame) (s : State)
      → Fills heapsize used frame
      → Yields (IsBounded heapsize) (read_objects os f (some heapsize) used frame s)
  unfolding read_objects
  read_objects-IsBounded zero used frame s fills = tt
  read_objects-IsBounded (suc f) used frame s fills =
      let again = λ (used' : ℕ) (frame' : Frame). read_objects os f (some heapsize) used' frame' in
      let later =
        λ (used' : ℕ) (frame' : Frame) (s' : State) (fills' : Fills heapsize used' frame').
          read_objects-IsBounded f used' frame' s' fills' in
      let l : used ≤ heapsize = omega (arith, fills.exact, fills.bounded.in_heap) in
      Yields-until os heapsize small (λ u. Unit {0}) (IsBounded heapsize) (read_until_full os 3) _ s
        (Yields-any _)
        (λ objtype s' h.
          Yields-if (IsBounded heapsize) (strcmp_eq objtype (codes "kv ")) _ _ s'
            (object-IsBounded used frame _ _ _ _ again (read_kv-Taken used s' l) fills
              (λ a u t. add_kv-Fills heapsize used u frame a fills t) later)
            (Yields-if (IsBounded heapsize) (strcmp_eq objtype (codes "ro ")) _ _ s'
              (object-IsBounded used frame _ _ _ _ again (read_ro-Taken used s' l) fills
                (λ a u t. add_ro-Fills heapsize used u frame a fills t) later)
              (Yields-if (IsBounded heapsize) (strcmp_eq objtype (codes "po ")) _ _ s'
                (object-IsBounded used frame _ _ _ _ again (read_po-Taken used s' l) fills
                  (λ a u t. add_po-Fills heapsize used u frame a fills t) later)
                (Yields-if (IsBounded heapsize) (strcmp_eq objtype (codes "end")) _ _ s'
                  (Yields-newline os heapsize small (IsBounded heapsize) frame s' fills.bounded)
                  tt))))
        (λ a s'. tt) (λ a s' h. tt) (λ a s'. tt)

  parse_header-Fills : (header : Bytes) → Fills heapsize 0 (parse_header header)
  unfolding parse_header
  parse_header-Fills header = record {
    exact = refl;
    bounded = record { in_heap = omega arith; hdrs_whole = tt; pos_whole = tt; ros_whole = tt };
  }

  read_frame-Yields :
      (fuel : ℕ) (s : State) → Yields (IsBounded heapsize) (read_frame os fuel (some heapsize) s)
  unfolding read_frame
  read_frame-Yields fuel s =
      let checked = λ (header : Bytes) (s' : State).
        Yields-if (IsBounded heapsize) (header_ok header) _ _ s'
          (read_objects-IsBounded fuel 0 (parse_header header) s' (parse_header-Fills header)) tt in
      Yields-until os heapsize small (λ u. Unit {0}) (IsBounded heapsize)
        (read_until_full os frame_header_length) _ s (Yields-any _)
        (λ header s' h. checked header s') (λ a s'. tt) (λ header s' h. checked header s')
        (λ a s'. tt)

  -- Whatever bytes arrive: the objects of a frame that is read into a frame heap of less than 2^64 bytes take together no
  -- more than the heap has, the value of each has the length that the object states, and the key of a header is at most
  -- 31 bytes long.
  pub read_frame-IsBounded :
      (fuel : ℕ) (s s' : State) (f : Frame)
      → read_frame os fuel (some heapsize) s ≡ ok f s'
      → IsBounded heapsize f
  read_frame-IsBounded fuel s s' f e =
      subst (Yields (IsBounded heapsize)) e (read_frame-Yields fuel s)
