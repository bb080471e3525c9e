-- ===== src/Run/Reads.antt =====
-- Total correctness of reading: a command takes exactly the given bytes off the connection, and
-- returns the given value, however the bytes arrive.
use bw2c.Base.{◌≡◌, refl, ◌∙◌, [], ◌++◌, append_assoc, Bytes}
use bw2c.Run.{Cmd, ok, pure, unless_heap_full, ◌>>=◌}
use bw2c.Os.{Source}

module _ (os : Source) where
  open os use {State, incoming}

  abbrev pub Reads : {A : Type 0} → Bytes → Cmd State A → A → Type 0
  Reads bs m a =
      (s : State) (rest : Bytes)
      → incoming s ≡ bs ++ rest
      → (s' : State) × (m s ≡ ok a s') × (incoming s' ≡ rest)

  pub Reads-pure : {A : Type 0} (a : A) → Reads [] (pure a) a
  Reads-pure a s rest e = (s, refl, e)

  pub Reads-bind :
      {A B : Type 0} (bs cs : Bytes) (m : Cmd State A) (f : A → Cmd State B) (a : A) (b : B)
      → Reads bs m a
      → Reads cs (f a) b
      → Reads (bs ++ cs) (m >>= f) b
  Reads-bind bs cs m f a b h k s rest e =
      let (s₁, e₁, i₁) = h s (cs ++ rest) (e ∙ append_assoc bs cs rest) in
      let (s₂, e₂, i₂) = k s₁ rest i₁ in (s₂, rw e₁ e₂, i₂)

  pub Reads-last :
      {A B : Type 0} (bs : Bytes) (m : Cmd State A) (f : A → Cmd State B) (a : A) (b : B)
      → Reads bs m a
      → Reads [] (f a) b
      → Reads bs (m >>= f) b
  Reads-last bs m f a b h k s rest e =
      let (s₁, e₁, i₁) = h s rest e in let (s₂, e₂, i₂) = k s₁ rest i₁ in (s₂, rw e₁ e₂, i₂)

  -- A command that succeeds is not tried again.
  pub Reads-unless :
      {A B : Type 0} (bs cs : Bytes) (m : Cmd State A) (k : A → Cmd State B) (again : Cmd State B)
      (a : A) (b : B)
      → Reads bs m a
      → Reads cs (k a) b
      → Reads (bs ++ cs) (λ s. unless_heap_full (m s) k again) b
  Reads-unless bs cs m k again a b h l s rest e =
      let (s₁, e₁, i₁) = h s (cs ++ rest) (e ∙ append_assoc bs cs rest) in
      let (s₂, e₂, i₂) = l s₁ rest i₁ in (s₂, rw e₁ e₂, i₂)
