-- ===== src/Api/Calls/Answered.antt =====
-- A call from its start to its end: the daemon serves the frame that answers it while it waits.
use bw2c.Base.{
  ℕ, suc, ◌≡◌, refl, sym, ap, ◌∙◌, Bool, true, false, Option, none, some, List, [], ◌∷◌, ◌++◌, ◌||◌,
}
use bw2c.Frame.{Frame, frame_must_response}
use bw2c.Frame.Wire.{frame_bytes, IsWireFrame}
use bw2c.Os.{Sink}
use bw2c.Run.{Run, ok, spin}
use bw2c.Utils.Sends.{SendsAll}
use bw2c.Daemon.Request.{Handler, ReqCtx, reqctx_wait}
use bw2c.Daemon.Client.{Client, World}
use bw2c.Daemon.Client.Transact.{transact-sends}
use bw2c.Daemon.Dispatch.{dispatch, handle_frame, is_final}
use bw2c.Daemon.Dispatch.Selects.{Others, dispatch-selects}
use bw2c.Daemon.Loop.{serve}
use bw2c.Api.Callbacks.{call_onframe}
use bw2c.Api.Callbacks.Outcomes.{IsSingle, call_onframe-IsSingle}
use bw2c.Api.Calls.{waited, transact_wait}

-- A request of one frame, at the front of the list.
handle_frame-IsSingle :
    (f : Frame) (r : ReqCtx)
    → IsSingle r.onframe
    → (o : Handler) × (handle_frame f r
        ≡ some (true, record r { onframe = o; ready = true; rv = frame_must_response f }))
unfolding handle_frame call_onframe
handle_frame-IsSingle f r h =
    call_onframe-IsSingle r.onframe h f (is_final f) (record r { rv = none })

ended_front : (b : Bool) → (b || true) ≡ true
ended_front true = refl
ended_front false = refl

dispatch_front :
    (f : Frame) (r r' : ReqCtx) (k : List ReqCtx)
    → Others f k
    → r.seqno ≡ f.seqno
    → handle_frame f r ≡ some (true, r')
    → dispatch f (r ∷ k) ≡ some (record { reqs = k; ended = r' ∷ [] })
dispatch_front f r r' k others e h =
    dispatch-selects f [] k r r' true tt others e h ∙ rw (ended_front (is_final f)) refl

serve_front :
    (f : Frame) (r r' : ReqCtx) (client : Client)
    → Others f client.reqs
    → r.seqno ≡ f.seqno
    → handle_frame f r ≡ some (true, r')
    → serve f (record client { reqs = r ∷ client.reqs })
      ≡ ok true (record client { ended = r' ∷ client.ended })
unfolding serve
serve_front f r r' client others e h = rw (serve, dispatch_front f r r' client.reqs others e h) refl

module _ (out : Sink) where
  open out use {State, sent}

  -- While the call waits, the daemon serves one frame.
  answer : Option (Bool × ReqCtx) → Run Client Bool → World out → List (World out × ReqCtx)
  answer (some (_, r')) (ok _ client) w = (record w { client = client }, r') ∷ []
  answer _ _ w = []

  pub daemon_serves : Frame → World out → ReqCtx → List (World out × ReqCtx)
  unfolding answer
  daemon_serves f w r = answer (handle_frame f r) (serve f w.client) w

  wait_ready :
      (w : World out) (r : ReqCtx)
      → r.ready ≡ true
      → waited (reqctx_wait ((w, r) ∷ [])) ≡ ok (none, r) w
  unfolding reqctx_wait
  wait_ready w r e = ap (λ b. waited (elim b [ true ↦ ok r w | false ↦ spin ])) e

  pub wait_daemon :
      (f : Frame) (r r' : ReqCtx) {stop : Bool} (w : World out) (client : Client)
      → handle_frame f r ≡ some (stop, r')
      → serve f w.client ≡ ok true client
      → r'.ready ≡ true
      → waited (reqctx_wait (daemon_serves f w r)) ≡ ok (none, r') (record w { client = client })
  unfolding daemon_serves answer
  wait_daemon f r r' w client h s e =
      rw (daemon_serves, h, s) (wait_ready (record w { client = client }) r' e)

  -- A request of one frame, sent by a connected client with its context `r`, comes back with the verdict on
  -- the frame that the daemon serves for its number; what was sent is the request in its wire format, and
  -- the list of requests is what it was.
  pub transact_wait-answered :
      (is_lost : State → Bool) (n : ℕ) (all : SendsAll out) (req f : Frame) (r : ReqCtx)
      (w : World out)
      → IsWireFrame req
      → w.client.connected ≡ true
      → IsSingle r.onframe
      → f.seqno ≡ req.seqno
      → Others f w.client.reqs
      → (s' : State) × (r' : ReqCtx) × (transact_wait out is_lost
            (suc (suc n))
            (daemon_serves f)
            req
            r
            w
          ≡ ok
              (none, r')
              (record { output = s'; client = record w.client { ended = r' ∷ w.client.ended } }))
        × (r'.rv ≡ frame_must_response f)
        × (sent s' ≡ sent w.output ++ frame_bytes req)
  unfolding transact_wait
  transact_wait-answered is_lost n all req f r w wire c single e others =
      let (s', t, i) = transact-sends out is_lost n all req r w wire c in
      let (o, h) = handle_frame-IsSingle f (record r { seqno = req.seqno }) single in
      let r' : ReqCtx = record r {
        seqno = req.seqno;
        onframe = o;
        ready = true;
        rv = frame_must_response f;
      } in
      (
        s',
        r',
        rw (transact_wait, t)
            (wait_daemon f (record r { seqno = req.seqno }) r'
              (record {
                output = s';
                client = record w.client { reqs = record r { seqno = req.seqno } ∷ w.client.reqs };
              })
              (record w.client { ended = r' ∷ w.client.ended }) h
              (serve_front f (record r { seqno = req.seqno }) r' w.client others (sym e) h) refl),
        refl,
        i,
      )
