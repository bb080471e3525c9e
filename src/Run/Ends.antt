-- ===== src/Run/Ends.antt =====
-- Commands that come to an end, and leave no more of the connection than there was.
use bw2c.Base.{ℕ, ◌+◌, ◌≤◌, ◌<◌, ◌≢◌, arith, length}
use bw2c.Run.{
  Error, frame_heap_full, Run, ok, err, fault, spin, Cmd, and_then, unless_heap_full, on_error,
  ◌>>=◌,
}
use bw2c.Os.{Source}

module _ (os : Source) where
  open os use {State, incoming}

  -- Of at most `n` bytes, at least `used a` are gone when `a` is returned. Undefined behaviour is an end, too.
  abbrev pub Ends : {A : Type 0} → ℕ → (A → ℕ) → Run State A → Type 0
  Ends n used (ok a s) = length (incoming s) + used a ≤ n
  Ends n used (err e s) = length (incoming s) ≤ n
  Ends n used fault = Unit
  Ends n used spin = 0 < 0

  module _ {A B : Type 0} (n : ℕ) (used : A → ℕ) (used' : B → ℕ) where
    pub Ends-and_then :
        (r : Run State A) (f : A → Cmd State B)
        → Ends n used r
        → ((a : A) (s : State) → length (incoming s) + used a ≤ n → Ends n used' (f a s))
        → Ends n used' (and_then r f)
    Ends-and_then (ok a s) f h k = k a s h
    Ends-and_then (err e s) f h k = h
    Ends-and_then fault f h k = tt
    Ends-and_then spin f h k = absurd (omega arith)

    pub Ends-bind :
        (m : Cmd State A) (f : A → Cmd State B) (s : State)
        → Ends n used (m s)
        → ((a : A) (s' : State) → length (incoming s') + used a ≤ n → Ends n used' (f a s'))
        → Ends n used' ((m >>= f) s)
    Ends-bind m f s h k = Ends-and_then (m s) f h k

    Ends-on_error :
        (e : Error) (again : Cmd State B) (s : State)
        → length (incoming s) ≤ n
        → ((s' : State) → length (incoming s') ≤ n → Ends n used' (again s'))
        → Ends n used' (on_error e again s)
    Ends-on_error frame_heap_full again s h k = k s h
    Ends-on_error _ again s h k = h

    pub Ends-unless :
        (r : Run State A) (f : A → Cmd State B) (again : Cmd State B)
        → Ends n used r
        → ((a : A) (s : State) → length (incoming s) + used a ≤ n → Ends n used' (f a s))
        → ((s : State) → length (incoming s) ≤ n → Ends n used' (again s))
        → Ends n used' (unless_heap_full r f again)
    Ends-unless (ok a s) f again h k l = k a s h
    Ends-unless (err e s) f again h k l = Ends-on_error e again s h l
    Ends-unless fault f again h k l = tt
    Ends-unless spin f again h k l = absurd (omega arith)

  -- What was gone before counts, too.
  pub Ends-shift :
      {A : Type 0} (m k n : ℕ) (used : A → ℕ) (r : Run State A)
      → m + k ≤ n
      → Ends m used r
      → Ends n (λ a. k + used a) r
  Ends-shift m k n used (ok a s) l h = omega (arith, h)
  Ends-shift m k n used (err e s) l h = omega (arith, h)
  Ends-shift m k n used fault l h = tt
  Ends-shift m k n used spin l h = h

  -- A weaker claim.
  pub Ends-mono :
      {A : Type 0} (m n : ℕ) (used : A → ℕ) (r : Run State A)
      → m ≤ n
      → Ends m used r
      → Ends n (λ a. 0) r
  Ends-mono m n used (ok a s) l h = omega (arith, h)
  Ends-mono m n used (err e s) l h = omega (arith, h)
  Ends-mono m n used fault l h = tt
  Ends-mono m n used spin l h = h

  -- A command that ends does not run out of fuel.
  pub Ends-not_spin :
      {A : Type 0} (n : ℕ) (used : A → ℕ) (r : Run State A) → Ends n used r → r ≢ spin
  Ends-not_spin n used (ok a s) h e = cc
  Ends-not_spin n used (err x s) h e = cc
  Ends-not_spin n used fault h e = cc
  Ends-not_spin n used spin h e = absurd (omega (arith, h))
