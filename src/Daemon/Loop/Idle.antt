-- ===== src/Daemon/Loop/Idle.antt =====
-- The daemon of a client without requests.
use bw2c.Base.{
  ℕ, zero, suc, ◌<◌, ◌≡◌, ◌⊎◌, inl, inr, refl, ap, ◌∙◌, true, false, Bool-cases, Option, none, some,
  [], ◌++◌, if◌then◌else◌, arith, length,
}
use bw2c.Frame.{Frame}
use bw2c.Frame.Ends.{read_frame-Ends}
use bw2c.Frame.Read.{read_frame}
use bw2c.Os.{Source}
use bw2c.Run.{Run, ok, err, fault, spin}
use bw2c.Run.Ends.{Ends}
use bw2c.Daemon.Client.{Client, disconnect}
use bw2c.Daemon.Dispatch.{dispatch}
use bw2c.Daemon.Loop.{World, daemon, daemon_step, serve, lose}
use bw2c.Daemon.Loop.Lost.{lose-nil}

serve_idle :
    (frame : Frame) (client : Client)
    → client.reqs ≡ []
    → (client' : Client) × (serve frame client ≡ ok true client') × (client'.reqs ≡ [])
unfolding serve dispatch
serve_idle frame client e = (
  record client { reqs = []; ended = client.ended },
  ap
      (λ l. elim (dispatch frame l) [
        | none ↦ fault
        | some d ↦ ok true (record client { reqs = d.reqs; ended = d.ended ++ client.ended })
      ])
      e,
  refl,
)

disconnect-connected : (client : Client) → (disconnect client).connected ≡ false
unfolding disconnect
disconnect-connected client = ground arith

-- Either the client is served on, or the daemon ends and the client is not connected.
step_idle :
    (rounds : ℕ) (frame : Frame) (client : Client)
    → client.reqs ≡ []
    → ((client' : Client) × (daemon_step rounds (some frame) client ≡ ok true client')
        × (client'.reqs ≡ []))
      ⊎ ((client' : Client) × (daemon_step rounds (some frame) client ≡ ok false client')
          × (client'.reqs ≡ [])
          × (client'.connected ≡ false))
unfolding daemon_step
step_idle rounds frame client e = elim (Bool-cases client.connected) [
  | inl c ↦
      let (client', s, r) = serve_idle frame client e in
      inl (client', ap (λ b. if b then serve frame client else lose rounds client) c ∙ s, r)
  | inr c ↦ inr (
    _,
    ap (λ b. if b then serve frame client else lose rounds client) c ∙ lose-nil rounds client e,
    refl,
    disconnect-connected client,
  )
]

lost_idle :
    (rounds : ℕ) (client : Client)
    → client.reqs ≡ []
    → daemon_step rounds none client ≡ ok false (record (disconnect client) { reqs = [] })
unfolding daemon_step
lost_idle rounds client e = lose-nil rounds client e

module _ (os : Source) where
  open os use {State, incoming}

  -- How the daemon comes to its end.
  abbrev pub IsEnd : Run (World os) (Unit {0}) → Type 0
  IsEnd (ok _ w) = (w.client.reqs ≡ []) × (w.client.connected ≡ false)
  IsEnd fault = Unit
  IsEnd (err e w) = 0 < 0
  IsEnd spin = 0 < 0

  idle_after :
      (f rounds : ℕ) (heap : Option ℕ) (w : World os) (r : Run State Frame)
      → w.client.reqs ≡ []
      → read_frame os rounds heap w.input ≡ r
      → Ends os (length (incoming w.input)) (λ frame. 27) r
      → ((w' : World os)
          → w'.client.reqs ≡ []
          → length (incoming w'.input) < length (incoming w.input)
          → IsEnd (daemon os f rounds heap w'))
      → IsEnd (daemon os (suc f) rounds heap w)
  unfolding daemon
  idle_after f rounds heap w (ok frame s) e r h again = elim (step_idle rounds frame w.client e) [
    | inl (client', d, e') ↦
        rw (daemon, r, d) (again (record { input = s; client = client' }) e' (omega arith))
    | inr (client', d, e', c') ↦ rw (daemon, r, d) (e', c')
  ]
  idle_after f rounds heap w (err x s) e r h again =
      rw (daemon, r, lost_idle rounds w.client e) (refl, disconnect-connected w.client)
  idle_after f rounds heap w fault e r h again = rw (daemon, r) tt
  idle_after f rounds heap w spin e r h again = absurd (omega (arith, h))

  -- Without an outstanding request the daemon comes to its end on every input that comes to an end,
  -- whatever bytes it has: where it does not run into undefined behaviour, its list is empty and its
  -- client not connected. The rounds, and those for the loops of each, are as many as there are bytes
  -- under way, and one more.
  pub daemon-IsEnd :
      (fuel rounds : ℕ) (heap : Option ℕ) (w : World os)
      → w.client.reqs ≡ []
      → length (incoming w.input) < fuel
      → length (incoming w.input) < rounds
      → IsEnd (daemon os fuel rounds heap w)
  daemon-IsEnd zero rounds heap w e lt lt' = absurd (omega arith)
  daemon-IsEnd (suc f) rounds heap w e lt lt' =
      idle_after f rounds heap w (read_frame os rounds heap w.input) e refl
        (read_frame-Ends os rounds heap w.input lt')
        (λ w' e' l. daemon-IsEnd f rounds heap w' e' (omega arith) (omega arith))
