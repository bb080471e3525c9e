-- ===== src/Run.antt =====
-- errors.h, and the runs of code that reads and writes through a file descriptor. A function that
-- returns 0 or an error code is a command: it returns a value, or it stops with the code.
pub mod Reads
pub mod Writes
pub mod Yields
pub mod Ends

-- errors.h; `system` is the return value -1, with the cause in `errno`.
pub data Error : Type 0 where
  malformed_frame frame_heap_full bad_arg bad_dot_form unexpected_frame missing_header : Error
  response_status system_resource_unavailable operation_not_supported connection_lost : Error
  synchronization system : Error

-- `fault` is undefined behaviour, a null pointer that is followed. `spin` means that the fuel of a
-- loop ran out.
pub data Run (W A : Type 0) : Type 0 where
  ok : A → W → Run W A
  err : Error → W → Run W A
  fault : Run W A
  spin : Run W A

abbrev pub Cmd : Type 0 → Type 0 → Type 0
Cmd W A = W → Run W A

module _ {W A : Type 0} where
  abbrev pub pure : A → Cmd W A
  pure a w = ok a w

  abbrev pub fail : Error → Cmd W A
  fail e w = err e w

  abbrev pub crash : Cmd W A
  crash w = fault

-- What a caller does that looks at the code: it goes on by itself where the code is FRAME_HEAP_FULL.
abbrev pub on_error : {W B : Type 0} → Error → Cmd W B → Cmd W B
on_error frame_heap_full again = again
on_error e again = fail e

module _ {W A B : Type 0} where
  abbrev pub and_then : Run W A → (A → Cmd W B) → Run W B
  and_then (ok a w) k = k a w
  and_then (err e w) k = err e w
  and_then fault k = fault
  and_then spin k = spin

  infixl 5 ◌>>=◌ ◌>>◌
  abbrev pub ◌>>=◌ : Cmd W A → (A → Cmd W B) → Cmd W B
  m >>= k = λ w. and_then (m w) k

  abbrev pub ◌>>◌ : Cmd W A → Cmd W B → Cmd W B
  m >> n = m >>= λ _. n

  abbrev pub unless_heap_full : Run W A → (A → Cmd W B) → Cmd W B → Run W B
  unless_heap_full (ok a w) k again = k a w
  unless_heap_full (err e w) k again = on_error e again w
  unless_heap_full fault k again = fault
  unless_heap_full spin k again = spin
