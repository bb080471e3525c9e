-- ===== src/Examples/Inputs.antt =====
-- The reader and the daemon at inputs of any kind, and requests in another order.
use mathlib.Core.List.Perm
use bw2c.Base.{
  ℕ, ◌≡◌, ◌↔◌, false, ◌∙◌, refl, ap, true, none, some, [], ◌∷◌, ◌++◌, arith, Bytes, codes, ◌+◌, ◌≤◌,
  ◌⊎◌, length,
}
use bw2c.Clib.{strncmp_eq}
use bw2c.Frame.{Frame, get_first_header, frame_must_response}
use bw2c.Frame.Bounded.{read_frame-IsBounded}
use bw2c.Frame.Bounded.Heap.{IsBounded}
use bw2c.Frame.Ends.{read_frame_ends}
use bw2c.Frame.Read.{read_frame}
use bw2c.Frame.RoundTrip.{read_frame-frame_bytes}
use bw2c.Frame.Verdict.{frame_must_response-none}
use bw2c.Frame.Wire.{frame_bytes}
use bw2c.Os.Queue.{three_at_a_time}
use bw2c.Run.{Error, ok, err, fault}
use bw2c.Daemon.Client.{Client}
use bw2c.Daemon.Dispatch.{dispatch}
use bw2c.Daemon.Dispatch.Order.{AreSame, dispatch-Perm}
use bw2c.Daemon.Loop.{daemon}
use bw2c.Daemon.Loop.Idle.{IsEnd, daemon-IsEnd}
use bw2c.Daemon.Request.{simple_req, ReqCtx}
use bw2c.Examples.Wire.{message_frame, message_frame-IsWire}
use bw2c.Examples.Calls.{header}

-- A frame that breaks off.
read_frame_ends_example :
    ((frame : Frame) × (s' : Bytes) × (read_frame three_at_a_time 9 none (codes "publ 000")
        ≡ ok frame s')
      × (length s' + 27 ≤ 8))
    ⊎ ((e : Error) × (s' : Bytes) × (read_frame three_at_a_time 9 none (codes "publ 000")
          ≡ err e s')
        × (length s' ≤ 8))
    ⊎ (read_frame three_at_a_time 9 none (codes "publ 000") ≡ fault)
read_frame_ends_example = read_frame_ends three_at_a_time 9 none (codes "publ 000") (omega arith)

message_read :
    read_frame three_at_a_time 4 (some 4096) (frame_bytes message_frame ++ codes "resp")
    ≡ ok message_frame (codes "resp")
message_read =
    let (s', r, i) =
      read_frame-frame_bytes three_at_a_time message_frame 4 (some 4096)
        (frame_bytes message_frame ++ codes "resp") (codes "resp") message_frame-IsWire
        (omega arith) (omega arith, omega arith) refl in
    r ∙ ap (ok message_frame) i

read_frame-IsBounded_example : IsBounded 4096 message_frame
read_frame-IsBounded_example =
    read_frame-IsBounded three_at_a_time 4096 (omega arith) 4
      (frame_bytes message_frame ++ codes "resp") (codes "resp") message_frame message_read

abbrev idle : Client
idle = record { reqs = []; curseqno = 0; connected = true; closed = 0; ended = [] }

daemon-IsEnd_example :
    IsEnd three_at_a_time
      (daemon three_at_a_time 9 9 (some 64) (record { input = codes "publ 000"; client = idle }))
daemon-IsEnd_example =
    daemon-IsEnd three_at_a_time 9 9 (some 64) (record { input = codes "publ 000"; client = idle })
      refl (omega arith) (omega arith)

abbrev waiting : ℕ → ReqCtx
waiting n = record {
  onframe = simple_req;
  ready = false;
  rv = none;
  seqno = n;
  handle = none;
  delivered = [];
}

dispatch-Perm_example :
    AreSame
      (dispatch message_frame (waiting 7 ∷ waiting 8 ∷ []))
      (dispatch message_frame (waiting 8 ∷ waiting 7 ∷ []))
dispatch-Perm_example =
    dispatch-Perm message_frame (waiting 7 ∷ waiting 8 ∷ []) (waiting 8 ∷ waiting 7 ∷ [])
      (Perm.swap (waiting 8) (waiting 7) [])

-- A status that is cut short.
abbrev okay_frame : Frame
okay_frame = record {
  cmd = codes "resp";
  seqno = 1;
  hdrs = header (codes "status") 2 (codes "ok") ∷ [];
  pos = [];
  ros = [];
}

has_status :
    get_first_header okay_frame (codes "status") ≡ some (header (codes "status") 2 (codes "ok"))
unfolding get_first_header strncmp_eq
has_status = refl

frame_must_response-none_example :
    (frame_must_response okay_frame ≡ none) ↔ ((rest : Bytes) × (codes "okay" ≡ codes "ok" ++ rest))
frame_must_response-none_example =
    frame_must_response-none okay_frame (header (codes "status") 2 (codes "ok")) refl has_status
      refl (λ e. omega arith, (λ e. omega arith, tt))
