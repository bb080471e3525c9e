-- ===== src/Daemon/Dispatch/Release.antt =====
-- The loop of `bw2_daemon` over the outstanding requests of a lost connection.
use bw2c.Base.{ℕ, zero, suc, ◌≢◌, true, none, some, List, ◌∷◌, inl, inr, Option-cases}
use bw2c.Run.{ok, connection_lost}
use bw2c.Daemon.Request.{ReqCtx}
use bw2c.Api.Callbacks.{call_onframe}
use bw2c.Daemon.Dispatch.{release}

-- The loop does not come to its end: while a request is outstanding, no number of rounds is enough.
pub release-spins :
    (fuel : ℕ) (curr : ReqCtx) (next l : List ReqCtx) → release fuel (curr ∷ next) ≢ ok tt l
unfolding release
release-spins zero curr next l h = cc
release-spins (suc f) curr next l h =
    elim (Option-cases (call_onframe none true (record curr { rv = some connection_lost }))) [
      | inl e ↦ let h' = rw (release, e) at (h) in cc
      | inr (p, e) ↦ release-spins f p.1 next l (rw (release, e) at (h))
    ]
