-- ===== src/Run/Writes.antt =====
-- Total correctness of writing: a command puts exactly the given bytes on the connection.
use bw2c.Base.{◌≡◌, refl, sym, [], ◌++◌, append-nil, append_assoc, Bytes}
use bw2c.Run.{Cmd, ok, pure, ◌>>◌}
use bw2c.Os.{Sink}

module _ (out : Sink) where
  open out use {State, sent}

  abbrev pub Writes : Bytes → Cmd State (Unit {0}) → Type 0
  Writes bs m = (s : State) → (s' : State) × (m s ≡ ok tt s') × (sent s' ≡ sent s ++ bs)

  pub Writes-pure : Writes [] (pure tt)
  Writes-pure s = (s, refl, sym (append-nil (sent s)))

  pub Writes-then :
      (bs cs : Bytes) (m n : Cmd State (Unit {0}))
      → Writes bs m
      → Writes cs n
      → Writes (bs ++ cs) (m >> n)
  Writes-then bs cs m n h k s =
      let (s₁, e₁, i₁) = h s in
      let (s₂, e₂, i₂) = k s₁ in (s₂, rw e₁ e₂, rw (i₂, i₁) (append_assoc (sent s) bs cs))
