-- ===== src/Daemon/Steps.antt =====
-- The client as its threads change it: each step is what one of them does under a lock, in any order.
pub mod Sound
use bw2c.Base.{◌≡◌, ◌≢◌, Bool, true, false, none, some, List, [], ◌∷◌}
use bw2c.Frame.{Frame}
use bw2c.Run.{ok, connection_lost}
use bw2c.Daemon.Request.{ReqCtx, Handler, reqctx_init}
use bw2c.Daemon.Client.{Client, client_init, get_seq_no, disconnect, enqueue, drop}
use bw2c.Daemon.Loop.{serve}
use bw2c.Api.Callbacks.{call_onframe}

-- The daemon reads and serves frames, or is in the loop that releases the requests, under the lock of the list, or
-- has returned.
pub data Phase : Type 0 where
  reading releasing gone : Phase

-- `marked` tells whether `bw2_connect` has made its last assignment, which it does once.
pub record System : Type 0 where
  pub client : Client
  pub daemon : Phase
  pub marked : Bool

-- A new request is initialised, and nothing was delivered for it; it waits for the lock of the list. A write that
-- finds the connection lost (`drops`) is made by a call, and so after `bw2_connect`. The daemon takes a lost
-- connection (`loses`) from a code of `bw2_readFrame` or from `connected`. `releases` is one round of its loop,
-- and `leaves` the end of it. The assignment of `bw2_connect` (`marks`) is made while the daemon runs.
pub data Step : System → System → Type 0 where
  draws : {s : System} → Step s (record s { client = (get_seq_no s.client).1 })
  enqueues :
      {s : System} (frame : Frame) (r : ReqCtx) (h : Handler)
      → s.daemon ≢ releasing
      → r.delivered ≡ []
      → Step s (record s { client = (enqueue frame (reqctx_init r h) s.client).1 })
  disconnects : {s : System} → Step s (record s { client = disconnect s.client })
  drops : {s : System} → s.marked ≡ true → Step s (record s { client = drop s.client })
  marks :
      {s : System}
      → s.marked ≡ false
      → Step s (record s { client = record s.client { connected = true }; marked = true })
  serves :
      {s : System} {c : Client} (frame : Frame)
      → s.daemon ≡ reading
      → serve frame s.client ≡ ok true c
      → Step s (record s { client = c })
  loses :
      {s : System}
      → s.daemon ≡ reading
      → Step s (record s { client = disconnect s.client; daemon = releasing })
  releases :
      {s : System} {curr curr' : ReqCtx} {rest : List ReqCtx} (stop : Bool)
      → s.daemon ≡ releasing
      → s.client.reqs ≡ curr ∷ rest
      → call_onframe none true (record curr { rv = some connection_lost }) ≡ some (stop, curr')
      → Step s (record s { client = record s.client { reqs = curr' ∷ rest } })
  leaves :
      {s : System}
      → s.daemon ≡ releasing
      → s.client.reqs ≡ []
      → Step s (record s { client = record s.client { reqs = [] }; daemon = gone })

-- What a client that `bw2_clientInit` has set up leads to, from where `bw2_connect` has started the daemon.
pub data IsReachable : System → Type 0 where
  start :
      {c : Client}
      → client_init true true true ≡ ok tt c
      → IsReachable (record { client = c; daemon = reading; marked = false })
  next : {s s' : System} → IsReachable s → Step s s' → IsReachable s'
