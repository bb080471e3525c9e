-- ===== src/Examples/Requests.antt =====
-- Requests and the frames that answer them.
use bw2c.Base.{
  inl, inr, ◌≡◌, ◌↔◌, ◌||◌, refl, none, some, Bool, true, false, List, [], ◌∷◌, ◌++◌, arith, Bytes,
  codes, if◌then◌else◌,
}
use bw2c.Run.{ok, err, connection_lost, system}
use bw2c.Clib.{strncmp_eq}
use bw2c.Os.Queue.{three_at_a_time, whole_sink, broken_sink}
use bw2c.Frame.{Frame, get_first_header, frame_must_response}
use bw2c.Frame.Wire.{frame_bytes}
use bw2c.Frame.Write.{write_frame}
use bw2c.Utils.Writing.{write_full_array, write_loop}
use bw2c.Daemon.Request.{Delivery, Handler, simple_req, ReqCtx, reqctx_init, reqctx_signal}
use bw2c.Api.Callbacks.{
  call_onframe, callback, simple_req_cb, signal_last, take_response, simplemsg_from_frame,
}
use bw2c.Api.Callbacks.Answers.{Answered, call_onframe-Answered}
use bw2c.Api.Callbacks.Outcomes.{call_onframe-IsSingle, IsMarked, simplemsg_from_frame-IsMarked}
use bw2c.Daemon.Dispatch.{Dispatched, dispatch, handle_frame, is_final}
use bw2c.Daemon.Dispatch.Selects.{dispatch-selects}
use bw2c.Daemon.Dispatch.Live.{IsLive, IsServed, dispatch-IsServed}
use bw2c.Daemon.Client.{Client, World, client_init, disconnect, enqueue, transact}
use bw2c.Daemon.Client.Transact.{transact-sends, transact-lost}
use bw2c.Daemon.Loop.{daemon, daemon_step, serve}
use bw2c.Daemon.Loop.Lost.{daemon_step-lost}
use bw2c.Daemon.Loop.Served.{daemon-frame_bytes}
use bw2c.Daemon.Steps.{
  releasing, System, IsReachable, start, next, marks, enqueues, loses, releases,
}
use bw2c.Daemon.Steps.Sound.{IsSound, IsReachable-IsSound}
use bw2c.Daemon.Stream.{serve_frames, log, IsMiddle, subscriber, serve_frames-subscriber}
use bw2c.Examples.Wire.{message_frame, message_frame-IsWire, whole_sink-SendsAll}

-- A context that nothing was done to, and one that waits for the frame with the number 7.
abbrev blank : ReqCtx
blank = record {
  onframe = simple_req;
  ready = false;
  rv = none;
  seqno = 0;
  handle = none;
  delivered = [];
}

abbrev waiting : ReqCtx
waiting = record blank { seqno = 7 }

abbrev answered : ReqCtx
answered = record waiting { ready = true; rv = frame_must_response message_frame }

abbrev client_of : List ReqCtx → Client
client_of reqs = record { reqs = reqs; curseqno = 8; connected = true; closed = 0; ended = [] }

handled : handle_frame message_frame waiting ≡ some (true, answered)
unfolding handle_frame call_onframe callback simple_req_cb signal_last take_response reqctx_signal
handled = refl

dispatch-selects_example :
    dispatch message_frame ((blank ∷ []) ++ waiting ∷ [])
    ≡ some (
        if is_final message_frame || true
        then record { reqs = (blank ∷ []) ++ []; ended = answered ∷ [] }
        else record { reqs = (blank ∷ []) ++ answered ∷ []; ended = [] })
dispatch-selects_example =
    dispatch-selects message_frame (blank ∷ []) [] waiting answered true (λ e. omega arith, tt) tt
      refl handled

waiting-IsLive : IsLive waiting
waiting-IsLive = record { quiet = inr refl; accepted = inl refl }

abbrev served : Dispatched
served = record { reqs = []; ended = answered ∷ [] }

dispatched : dispatch message_frame (waiting ∷ []) ≡ some served
unfolding dispatch handle_frame call_onframe callback simple_req_cb signal_last take_response
    reqctx_signal is_final get_first_header strncmp_eq
dispatched = refl

dispatch-IsServed_example : IsServed message_frame served
dispatch-IsServed_example =
    dispatch-IsServed message_frame (waiting ∷ []) served (waiting-IsLive, tt) dispatched

-- The client that `bw2_clientInit` has set up, with a request that the daemon releases.
abbrev set_up : Client
set_up = record (client_of []) { curseqno = 0; connected = false }

abbrev told : ReqCtx
told = record waiting { ready = true; rv = some connection_lost }

abbrev releasing_one : System
releasing_one = record {
  client = record set_up { reqs = told ∷ []; closed = 1 };
  daemon = releasing;
  marked = true;
}

releasing_one-IsReachable : IsReachable releasing_one
unfolding client_init enqueue reqctx_init disconnect call_onframe callback simple_req_cb signal_last
    take_response reqctx_signal
releasing_one-IsReachable =
    next
      (next
        (next (next (start refl) (marks refl))
          (enqueues message_frame blank simple_req (λ e. cc) refl))
        (loses refl))
      (releases true refl refl refl)

IsReachable-IsSound_example : IsSound releasing_one
IsReachable-IsSound_example = IsReachable-IsSound releasing_one releasing_one-IsReachable

answers : call_onframe (some message_frame) false waiting ≡ some (true, answered)
unfolding call_onframe callback simple_req_cb signal_last take_response reqctx_signal
answers = refl

call_onframe-Answered_example : Answered (record waiting { rv = none }) true answered
call_onframe-Answered_example =
    call_onframe-Answered message_frame false waiting true answered refl answers

abbrev status_frame : Frame
status_frame = record message_frame { cmd = codes "resp" }

call_onframe-IsSingle_example :
    (o' : Handler) × (callback simple_req (some status_frame) true waiting
      ≡ some (
        true,
        record waiting { onframe = o'; ready = true; rv = frame_must_response status_frame },
      ))
call_onframe-IsSingle_example = call_onframe-IsSingle simple_req tt status_frame true waiting

simplemsg_from_frame-IsMarked_example :
    IsMarked
      (simplemsg_from_frame message_frame)
      (get_first_header message_frame (codes "from"))
      (get_first_header message_frame (codes "uri"))
simplemsg_from_frame-IsMarked_example = simplemsg_from_frame-IsMarked message_frame

abbrev world_of : Bytes → World whole_sink
world_of s = record { output = s; client = client_of [] }

transact-sends_example :
    (s' : Bytes) × (transact whole_sink (λ s. false) 2 message_frame (some blank) (world_of [])
      ≡ ok none (record { output = s'; client = record (client_of []) { reqs = waiting ∷ [] } }))
    × (s' ≡ [] ++ frame_bytes message_frame)
transact-sends_example =
    transact-sends whole_sink (λ s. false) 0 whole_sink-SendsAll message_frame blank (world_of [])
      message_frame-IsWire refl

write_fails : write_frame broken_sink 2 message_frame [] ≡ err system []
unfolding write_frame write_full_array write_loop
write_fails = refl

transact-lost_example :
    (client' : Client) × (transact broken_sink
        (λ s. true)
        2
        message_frame
        (some blank)
        (record { output = []; client = client_of [] })
      ≡ ok (some connection_lost) (record { output = []; client = client' }))
    × (client'.connected ≡ false)
    × (client'.reqs ≡ waiting ∷ [])
transact-lost_example =
    transact-lost broken_sink (λ s. true) 2 message_frame blank
      (record { output = []; client = client_of [] }) [] refl write_fails refl

daemon_step-lost_example :
    ((b : Bool) × (c : Client) × (daemon_step 5 none (client_of (waiting ∷ [])) ≡ ok b c))
    ↔ (waiting ∷ [] ≡ [])
daemon_step-lost_example = daemon_step-lost 5 (client_of (waiting ∷ []))

served_client :
    serve message_frame (client_of (waiting ∷ []))
    ≡ ok true (record (client_of []) { ended = answered ∷ [] })
unfolding serve dispatch handle_frame call_onframe callback simple_req_cb signal_last take_response
    reqctx_signal is_final get_first_header strncmp_eq
served_client = refl

daemon-frame_bytes_example :
    (s' : Bytes) × (daemon three_at_a_time 2 4 (some 4096) (record {
      input = frame_bytes message_frame ++ codes "re";
      client = client_of (waiting ∷ []);
    })
      ≡ daemon three_at_a_time 1 4
          (some 4096)
          (record { input = s'; client = record (client_of []) { ended = answered ∷ [] } }))
    × (s' ≡ codes "re")
daemon-frame_bytes_example =
    daemon-frame_bytes three_at_a_time message_frame 1 4 (some 4096)
      (record {
        input = frame_bytes message_frame ++ codes "re";
        client = client_of (waiting ∷ []);
      })
      (codes "re") (record (client_of []) { ended = answered ∷ [] }) message_frame-IsWire
      (omega arith) (omega arith, omega arith) refl refl served_client

abbrev go_on : List Delivery → Bool
go_on ds = false

message_frame-IsMiddle : IsMiddle 7 message_frame
unfolding is_final get_first_header strncmp_eq
message_frame-IsMiddle = record { own = refl; not_last = refl }

serve_frames-subscriber_example :
    serve_frames
      (message_frame ∷ message_frame ∷ [])
      ((blank ∷ []) ++ subscriber go_on 7 [] blank ∷ [])
    ≡ some (
        (blank ∷ []) ++ subscriber go_on 7 (log (message_frame ∷ message_frame ∷ []) []) blank ∷ [])
serve_frames-subscriber_example =
    serve_frames-subscriber (message_frame ∷ message_frame ∷ []) (blank ∷ []) [] go_on 7 [] blank
      (λ ds. refl) (message_frame-IsMiddle, (message_frame-IsMiddle, tt)) (λ e. omega arith, tt) tt
