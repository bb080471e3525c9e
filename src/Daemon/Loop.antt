-- ===== src/Daemon/Loop.antt =====
-- `bw2_daemon` of daemon.c as a whole: the frames are read, and each is handed to the requests.
pub mod Lost
pub mod Served
pub mod Idle
use bw2c.Base.{
  ℕ, zero, suc, ◌++◌, Bool, true, false, Option, none, some, List, [], ◌∷◌, if◌then◌else◌,
}
use bw2c.Frame.{Frame}
use bw2c.Frame.Read.{read_frame}
use bw2c.Os.{Source}
use bw2c.Run.{Run, ok, err, fault, spin}
use bw2c.Daemon.Request.{ReqCtx}
use bw2c.Daemon.Dispatch.{Dispatched, dispatch, release}
use bw2c.Daemon.Client.{Client, disconnect}

released : Client → Run (List ReqCtx) (Unit {0}) → Run Client Bool
released client (ok _ _) = ok false (record client { reqs = [] })
released client fault = fault
released client _ = spin

-- The connection is closed, and the list is released and emptied. The result false ends the daemon.
pub lose : (fuel : ℕ) → Client → Run Client Bool
unfolding released
lose fuel client = let client' = disconnect client in released client' (release fuel client'.reqs)

unfoldable pub serve : Frame → Client → Run Client Bool
serve frame client = elim (dispatch frame client.reqs) [
  | none ↦ fault
  | some d ↦ ok true (record client { reqs = d.reqs; ended = d.ended ++ client.ended })
]

-- What the daemon does with a frame, or with the failure to read one (`none`), under `reqslock`.
pub daemon_step : (fuel : ℕ) → Option Frame → Client → Run Client Bool
daemon_step fuel none client = lose fuel client
daemon_step fuel (some frame) client =
    if client.connected then serve frame client else lose fuel client

module _ (os : Source) where
  open os use {State}

  -- What the daemon reads, and the client, which other threads work on too. In this run none does.
  pub record World : Type 0 where
    pub input : State
    pub client : Client

  -- `fuel` bounds the frames, and `rounds` the bytes of a frame and the rounds of a loop without end.
  unfoldable pub daemon : (fuel rounds : ℕ) (heap : Option ℕ) → World → Run World (Unit {0})
  daemon zero rounds heap w = spin
  daemon (suc f) rounds heap w = elim (read_frame os rounds heap w.input) [
    | ok frame s ↦ elim (daemon_step rounds (some frame) w.client) [
      | ok true client ↦ daemon f rounds heap (record { input = s; client = client })
      | ok false client ↦ ok tt (record { input = s; client = client })
      | fault ↦ fault
      | _ ↦ spin
    ]
    | err _ s ↦ elim (daemon_step rounds none w.client) [
      | ok _ client ↦ ok tt (record { input = s; client = client })
      | fault ↦ fault
      | _ ↦ spin
    ]
    | fault ↦ fault
    | spin ↦ spin
  ]
