-- ===== src/Daemon/Dispatch.antt =====
-- The two inner loops of `bw2_daemon` (daemon.c) over the list of the outstanding requests. Each runs
-- under the lock of the list, so that it is one step of the client.
pub mod Selects
pub mod Order
pub mod Live
pub mod Release
use bw2c.Base.{
  ℕ, zero, suc, Bool, true, false, ◌||◌, Option, none, some, List, [], ◌∷◌, ◌==◌, if◌then◌else◌,
  ◌>>=◌, codes,
}
use bw2c.Clib.{strncmp_eq}
use bw2c.Frame.{Frame, Header, get_first_header}
use bw2c.Run.{Run, ok, fault, spin, connection_lost}
use bw2c.Daemon.Request.{ReqCtx}
use bw2c.Api.Callbacks.{call_onframe}

finish_of : Option Header → Bool
finish_of none = false
finish_of (some finishhdr) = strncmp_eq finishhdr.value (codes "true") finishhdr.len

unfoldable pub is_final : Frame → Bool
unfolding finish_of
is_final frame = finish_of (get_first_header frame (codes "finished"))

-- The list afterwards, and the requests that left it, each as its callback left it.
pub record Dispatched : Type 0 where
  pub reqs : List ReqCtx
  pub ended : List ReqCtx

keep_or_end : Bool → ReqCtx → Dispatched → Dispatched
keep_or_end true curr next = record next { ended = curr ∷ next.ended }
keep_or_end false curr next = record next { reqs = curr ∷ next.reqs }

unfoldable pub handle_frame : Frame → ReqCtx → Option (Bool × ReqCtx)
handle_frame frame curr = call_onframe (some frame) (is_final frame) (record curr { rv = none })

-- The loop goes on with the next request once the callback of the current one has returned.
unfoldable pub dispatch : Frame → List ReqCtx → Option Dispatched
unfolding keep_or_end
dispatch frame [] = some (record { reqs = []; ended = [] })
dispatch frame (curr ∷ next) =
    let rest = dispatch frame next in
    if curr.seqno == frame.seqno
    then (do
      (stoplistening, curr') ← handle_frame frame curr
      d ← rest
      some (keep_or_end (is_final frame || stoplistening) curr' d))
    else (do d ← rest; some (keep_or_end false curr d))

-- Without a connection: `curr` stays the first request, whatever its callback does. Each round takes
-- one unit of fuel.
unfoldable pub release : (fuel : ℕ) → List ReqCtx → Run (List ReqCtx) (Unit {0})
release fuel [] = ok tt []
release zero (curr ∷ next) = spin
release (suc f) (curr ∷ next) =
    elim (call_onframe none true (record curr { rv = some connection_lost })) [
      | none ↦ fault
      | some (_, curr') ↦ release f (curr' ∷ next)
    ]
