-- ===== src/Daemon/Client/Transact.antt =====
-- What `bw2_transact` of daemon.c does to the list of requests and to the connection.
use bw2c.Base.{ℕ, suc, ◌≡◌, refl, Bool, true, false, none, some, ◌∷◌, ◌++◌}
use bw2c.Frame.{Frame}
use bw2c.Frame.Wire.{frame_bytes, IsWireFrame}
use bw2c.Frame.Write.{write_frame}
use bw2c.Frame.Sends.{write_frame-Writes}
use bw2c.Os.{Sink}
use bw2c.Utils.Sends.{SendsAll}
use bw2c.Run.{ok, err, connection_lost, system}
use bw2c.Daemon.Request.{ReqCtx}
use bw2c.Daemon.Client.{Client, drop, World, transact, enqueue, send_out}

abbrev queued : Frame → ReqCtx → Client → Client
queued frame r client = record client { reqs = record r { seqno = frame.seqno } ∷ client.reqs }

enqueue_connected :
    (frame : Frame) (r : ReqCtx) (client : Client)
    → client.connected ≡ true
    → enqueue frame r client ≡ (none, queued frame r client)
unfolding enqueue
enqueue_connected frame r client c = rw c refl

enqueue_refused :
    (frame : Frame) (r : ReqCtx) (client : Client)
    → client.connected ≡ false
    → enqueue frame r client ≡ (some connection_lost, client)
unfolding enqueue
enqueue_refused frame r client c = rw c refl

module _ (out : Sink) (is_lost : out.State → Bool) where
  open out use {State, sent}

  send_out_lost :
      (fuel : ℕ) (frame : Frame) (client : Client) (s s' : State)
      → write_frame out fuel frame s ≡ err system s'
      → is_lost s' ≡ true
      → send_out out is_lost fuel frame client s
        ≡ ok (some connection_lost) (record { output = s'; client = drop client })
  unfolding send_out
  send_out_lost fuel frame client s s' e l = rw (send_out, e, l) refl

  send_out_done :
      (fuel : ℕ) (frame : Frame) (client : Client) (s s' : State)
      → write_frame out fuel frame s ≡ ok tt s'
      → send_out out is_lost fuel frame client s ≡ ok none (record { output = s'; client = client })
  unfolding send_out
  send_out_done fuel frame client s s' e = rw (send_out, e) refl

  -- A frame that has a wire format, sent by a connected client through a `send` that takes all
  -- that it is given, goes out as its bytes, and its request waits at the front of the list, under
  -- the number of the frame.
  pub transact-sends :
      (f : ℕ) (all : SendsAll out) (frame : Frame) (r : ReqCtx) (w : World out)
      → IsWireFrame frame
      → w.client.connected ≡ true
      → (s' : State) × (transact out is_lost (suc (suc f)) frame (some r) w
          ≡ ok none (record {
            output = s';
            client = record w.client { reqs = record r { seqno = frame.seqno } ∷ w.client.reqs };
          }))
        × (sent s' ≡ sent w.output ++ frame_bytes frame)
  unfolding transact
  transact-sends f all frame r w h c =
      let (s', e, i) = write_frame-Writes out f all frame w.output h in
      (
        s',
        rw (transact, enqueue_connected frame r w.client c, enqueue_connected frame r w.client c)
            (send_out_done (suc (suc f)) frame (queued frame r w.client) w.output s' e),
        i,
      )

  -- Where the write of a client that is marked as connected fails since the connection is gone,
  -- the caller is told that and the mark is cleared, but the request stays at the front of the
  -- list.
  pub transact-lost :
      (fuel : ℕ) (frame : Frame) (r : ReqCtx) (w : World out) (s' : State)
      → w.client.connected ≡ true
      → write_frame out fuel frame w.output ≡ err system s'
      → is_lost s' ≡ true
      → (client' : Client) × (transact out is_lost fuel frame (some r) w
          ≡ ok (some connection_lost) (record { output = s'; client = client' }))
        × (client'.connected ≡ false)
        × (client'.reqs ≡ record r { seqno = frame.seqno } ∷ w.client.reqs)
  unfolding transact drop
  transact-lost fuel frame r w s' c e l = (
    drop (queued frame r w.client),
    rw (transact, enqueue_connected frame r w.client c, enqueue_connected frame r w.client c)
        (send_out_lost fuel frame (queued frame r w.client) w.output s' e l),
    refl,
    refl,
  )

  -- A client that is not connected refuses a request: nothing is sent, and nothing is put in the
  -- list.
  pub transact_refused :
      (fuel : ℕ) (frame : Frame) (r : ReqCtx) (w : World out)
      → w.client.connected ≡ false
      → transact out is_lost fuel frame (some r) w ≡ ok (some connection_lost) w
  unfolding transact
  transact_refused fuel frame r w c =
      rw (transact, enqueue_refused frame r w.client c, enqueue_refused frame r w.client c) refl
