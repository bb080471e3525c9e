-- ===== src/Run/Yields.antt =====
-- What a command returns, whatever the input is.
use bw2c.Base.{Bool, true, false, if◌then◌else◌}
use bw2c.Run.{
  Run, ok, err, fault, spin, Error, frame_heap_full, Cmd, and_then, unless_heap_full, on_error,
  ◌>>=◌,
}

module _ {W : Type 0} where
  -- Nothing is said of a run that returns no value.
  abbrev pub Yields : {A : Type 0} → (A → Type 0) → Run W A → Type 0
  Yields Q (ok a w) = Q a
  Yields Q _ = Unit

  module _ {A B : Type 0} (P : A → Type 0) (Q : B → Type 0) where
    pub Yields-and_then :
        (r : Run W A) (f : A → Cmd W B)
        → Yields P r
        → ((a : A) (w : W) → P a → Yields Q (f a w))
        → Yields Q (and_then r f)
    Yields-and_then (ok a w) f h k = k a w h
    Yields-and_then (err e w) f h k = tt
    Yields-and_then fault f h k = tt
    Yields-and_then spin f h k = tt

    pub Yields-bind :
        (m : Cmd W A) (f : A → Cmd W B) (w : W)
        → Yields P (m w)
        → ((a : A) (w' : W) → P a → Yields Q (f a w'))
        → Yields Q ((m >>= f) w)
    Yields-bind m f w h k = Yields-and_then (m w) f h k

    Yields-on_error :
        (e : Error) (again : Cmd W B) (w : W)
        → ((w' : W) → Yields Q (again w'))
        → Yields Q (on_error e again w)
    Yields-on_error frame_heap_full again w k = k w
    Yields-on_error _ again w k = tt

    pub Yields-unless :
        (r : Run W A) (f : A → Cmd W B) (again : Cmd W B)
        → Yields P r
        → ((a : A) (w : W) → P a → Yields Q (f a w))
        → ((w : W) → Yields Q (again w))
        → Yields Q (unless_heap_full r f again)
    Yields-unless (ok a w) f again h k l = k a w h
    Yields-unless (err e w) f again h k l = Yields-on_error e again w l
    Yields-unless fault f again h k l = tt
    Yields-unless spin f again h k l = tt

  pub Yields-if :
      {A : Type 0} (Q : A → Type 0) (b : Bool) (m m' : Cmd W A) (w : W)
      → Yields Q (m w)
      → Yields Q (m' w)
      → Yields Q ((if b then m else m') w)
  Yields-if Q true m m' w h h' = h
  Yields-if Q false m m' w h h' = h'

  -- Nothing is asked of the value.
  pub Yields-any : {A : Type 0} (r : Run W A) → Yields (λ a. Unit {0}) r
  Yields-any (ok a w) = tt
  Yields-any (err e w) = tt
  Yields-any fault = tt
  Yields-any spin = tt
