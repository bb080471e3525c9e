-- ===== src/Os.antt =====
-- The parts of the operating system that the program reads and writes through, as interfaces: the
-- program's code is a function of them, and the theorems rest on their documented behaviour.
pub mod Queue
pub mod Linux
pub mod Riot
use bw2c.Base.{
  ℕ, ◌+◌, ◌≤◌, ◌<◌, ◌≡◌, ◌≢◌, ◌⊎◌, Bool, Option, none, some, [], ◌∷◌, ◌++◌, Bytes, length, take,
}

-- What `recv` returns: 0 for a connection that is closed, -1, or one byte and more.
pub data Received : Type 0 where
  closed failed : Received
  bytes : ℕ → Bytes → Received

-- The receiving side of a connection. `incoming` are the bytes that `recv` will still deliver
-- before the connection is closed or fails. `malloc` stands here too, since it has a state.
pub record Source : Type 1 where
  pub State : Type 0
  pub recv : ℕ → State → Received × State
  pub malloc : ℕ → State → Bool × State
  pub incoming : State → Bytes
  -- As long as bytes are left, `recv` delivers the next of them, at least one, at most `n`.
  pub recv_delivers :
      (n : ℕ) (s : State)
      → 0 < n
      → incoming s ≢ []
      → (c : ℕ) × (cs : Bytes) × (s' : State) × (recv n s ≡ (bytes c cs, s'))
        × (incoming s ≡ c ∷ cs ++ incoming s')
        × (length (c ∷ cs) ≤ n)
  -- After the last byte it delivers none.
  pub recv_stops :
      (n : ℕ) (s : State)
      → incoming s ≡ []
      → (s' : State) × ((recv n s ≡ (closed, s')) ⊎ (recv n s ≡ (failed, s'))) × (incoming s' ≡ [])
  -- An allocation leaves the connection alone.
  pub malloc_keeps : (n : ℕ) (s : State) → incoming (malloc n s).1 ≡ incoming s

-- The sending side. `send` takes some of the bytes that it is given, from the front, or it fails.
-- `sent` are the bytes that went out.
pub record Sink : Type 1 where
  pub State : Type 0
  pub send : Bytes → State → Option ℕ × State
  pub sent : State → Bytes
  pub send_takes :
      (bs : Bytes) (s s' : State) (n : ℕ)
      → send bs s ≡ (some n, s')
      → (n ≤ length bs) × (sent s' ≡ sent s ++ take n bs)
  pub send_fails : (bs : Bytes) (s s' : State) → send bs s ≡ (none, s') → sent s' ≡ sent s
