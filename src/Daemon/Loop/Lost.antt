-- ===== src/Daemon/Loop/Lost.antt =====
-- What `bw2_daemon` does when the connection is lost.
use bw2c.Base.{
  ap, some, ℕ, ◌≡◌, ◌↔◌, refl, sym, ◌∙◌, Bool, false, none, List, [], ◌∷◌, Bool-cases, inl, inr,
  if◌then◌else◌,
}
use bw2c.Frame.{Frame}
use bw2c.Run.{Run, ok, err, fault, spin}
use bw2c.Daemon.Request.{ReqCtx}
use bw2c.Daemon.Dispatch.{release}
use bw2c.Daemon.Dispatch.Release.{release-spins}
use bw2c.Daemon.Client.{Client, disconnect}
use bw2c.Daemon.Loop.{lose, released, serve, daemon_step}

released-eq-ok :
    (client' : Client) (m : Run (List ReqCtx) (Unit {0})) (b : Bool) (c : Client)
    → released client' m ≡ ok b c
    → (l : List ReqCtx) × (m ≡ ok tt l)
unfolding released
released-eq-ok client' (ok _ l) b c h = (l, refl)
released-eq-ok client' (err e l) b c h = cc
released-eq-ok client' fault b c h = cc
released-eq-ok client' spin b c h = cc

disconnect-reqs : (client : Client) → (disconnect client).reqs ≡ client.reqs
unfolding disconnect
disconnect-reqs client = elim (Bool-cases client.connected) [
  | inl e ↦ rw e refl
  | inr e ↦ rw e refl
]

release-eq-ok : (fuel : ℕ) (reqs l : List ReqCtx) → release fuel reqs ≡ ok tt l → reqs ≡ []
release-eq-ok fuel [] l h = refl
release-eq-ok fuel (curr ∷ next) l h = absurd (release-spins fuel curr next l h)

release-nil : (fuel : ℕ) → release fuel [] ≡ ok tt []
unfolding release
release-nil fuel = refl

lose-eq-ok :
    (fuel : ℕ) (client : Client) (b : Bool) (c : Client)
    → lose fuel client ≡ ok b c
    → client.reqs ≡ []
unfolding lose
lose-eq-ok fuel client b c h =
    let (l, e) = released-eq-ok (disconnect client) (release fuel (disconnect client).reqs) b c h in
    sym (disconnect-reqs client) ∙ release-eq-ok fuel (disconnect client).reqs l e

pub lose-nil :
    (fuel : ℕ) (client : Client)
    → client.reqs ≡ []
    → lose fuel client ≡ ok false (record (disconnect client) { reqs = [] })
unfolding lose released
lose-nil fuel client e = rw (disconnect-reqs client, e, release-nil fuel) refl

-- When the connection is lost, the daemon comes to its end, whatever the number of rounds, exactly if no request
-- is outstanding: with one it never gets past the first.
pub daemon_step-lost :
    (fuel : ℕ) (client : Client)
    → ((b : Bool) × (c : Client) × (daemon_step fuel none client ≡ ok b c)) ↔ (client.reqs ≡ [])
unfolding daemon_step
daemon_step-lost fuel client =
    (λ (b, c, h). lose-eq-ok fuel client b c h, λ e. (false, _, lose-nil fuel client e))

disconnect_unconnected : (client : Client) → client.connected ≡ false → disconnect client ≡ client
unfolding disconnect
disconnect_unconnected client c = rw c refl

no_reqs : (client : Client) → client.reqs ≡ [] → record client { reqs = [] } ≡ client
no_reqs client e = rw e refl

-- A daemon that finds the client unconnected and without requests ends and leaves it alone.
pub daemon_step-unconnected :
    (fuel : ℕ) (f : Frame) (client : Client)
    → client.connected ≡ false
    → client.reqs ≡ []
    → daemon_step fuel (some f) client ≡ ok false client
unfolding daemon_step
daemon_step-unconnected fuel f client c e =
    ap (λ b. if b then serve f client else lose fuel client) c
    ∙ lose-nil fuel client e
    ∙ ap {A = Client} (λ c'. ok false (record c' { reqs = [] })) (disconnect_unconnected client c)
    ∙ ap (ok false) (no_reqs client e)
