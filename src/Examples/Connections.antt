-- ===== src/Examples/Connections.antt =====
-- A connection from its hello on, and one that ends before it is marked as connected.
use bw2c.Base.{◌≡◌, refl, true, false, none, some, [], ◌∷◌, ◌++◌, arith, Bytes, codes}
use bw2c.Clib.{strlen, cstr, strncmp_eq}
use bw2c.Frame.{Frame, cmd_bytes, kv_len, num_digits, get_first_header}
use bw2c.Frame.Length.{frame_length}
use bw2c.Frame.Wire.{frame_bytes, IsWireFrame}
use bw2c.Os.Queue.{three_at_a_time}
use bw2c.Run.{ok, err, missing_header, unexpected_frame}
use bw2c.Daemon.Request.{simple_req, ReqCtx}
use bw2c.Daemon.Client.{Client, enqueue}
use bw2c.Daemon.Loop.{World, daemon}
use bw2c.Daemon.Connect.{
  Dialer, DaemonInfo, daemon_trampoline, close_and_error, check_hello, mark_connected, connect,
}
use bw2c.Daemon.Connect.Hello.{connect-hello}
use bw2c.Daemon.Connect.Early.{daemon-early}
use bw2c.Examples.Wire.{message_frame, message_frame-IsWire}
use bw2c.Examples.Calls.{header}

abbrev reachable : Dialer three_at_a_time
reachable = record {
  socket = λ s. (true, s);
  connect = λ s. (true, s);
  thread_create = λ s. (none, s);
  thread_keeps = λ s. refl;
}

-- No router answers at the address.
abbrev unreachable : Dialer three_at_a_time
unreachable = record {
  socket = λ s. (true, s);
  connect = λ s. (false, s);
  thread_create = λ s. (none, s);
  thread_keeps = λ s. refl;
}

abbrev hello_frame : Frame
hello_frame = record {
  cmd = codes "helo";
  seqno = 0;
  hdrs = header (codes "version") 5 (codes "2.4.6") ∷ [];
  pos = [];
  ros = [];
}

hello_frame-IsWire : IsWireFrame hello_frame
unfolding frame_length kv_len num_digits strlen cstr
hello_frame-IsWire = record {
  cmd_exact = refl;
  seqno_nonneg = omega arith;
  length_short = omega arith;
  hdrs_ok = (
    record {
      no_nul = (
        λ e. omega arith,
        (
          λ e. omega arith,
          (
            λ e. omega arith,
            (λ e. omega arith, (λ e. omega arith, (λ e. omega arith, (λ e. omega arith, tt)))),
          ),
        ),
      );
      no_space = (
        λ e. omega arith,
        (
          λ e. omega arith,
          (
            λ e. omega arith,
            (λ e. omega arith, (λ e. omega arith, (λ e. omega arith, (λ e. omega arith, tt)))),
          ),
        ),
      );
      key_short = omega arith;
      len_exact = refl;
      len_short = omega arith;
    },
    tt,
  );
  pos_ok = tt;
  ros_ok = tt;
}

abbrev new_client : Client
new_client = record { reqs = []; curseqno = 0; connected = false; closed = 0; ended = [] }

abbrev behind : Bytes → World three_at_a_time
behind s = record { input = s; client = new_client }

abbrev info : DaemonInfo
info = record { heapsize = 4096; has_heap = true }

names_version :
    get_first_header hello_frame (codes "version")
    ≡ some (header (codes "version") 5 (codes "2.4.6"))
unfolding get_first_header strncmp_eq
names_version = refl

connect-hello_example :
    (s : Bytes) × (connect three_at_a_time reachable 9 info
        (behind (frame_bytes hello_frame ++ codes "resp"))
      ≡ ok info (record { input = s; client = record new_client { connected = true } }))
    × (s ≡ codes "resp")
connect-hello_example =
    connect-hello three_at_a_time reachable 9 info
      (behind (frame_bytes hello_frame ++ codes "resp")) hello_frame
      (header (codes "version") 5 (codes "2.4.6")) (codes "resp") refl refl (λ n s. refl)
      (λ s. refl) refl hello_frame-IsWire (omega arith) (omega arith, omega arith) refl
      names_version

abbrev fresh : ReqCtx
fresh = record {
  onframe = simple_req;
  ready = false;
  rv = none;
  seqno = 0;
  handle = none;
  delivered = [];
}

daemon-early_example :
    (w' : World three_at_a_time) × (daemon three_at_a_time 1 4
        (some 4096)
        (behind (frame_bytes message_frame ++ []))
      ≡ ok tt w')
    × (w'.input ≡ [])
    × (w'.client ≡ new_client)
    × ((enqueue message_frame fresh (mark_connected three_at_a_time reachable w').client).0 ≡ none)
    × ((enqueue message_frame fresh (mark_connected three_at_a_time reachable w').client).1.reqs
        ≡ record fresh { seqno = message_frame.seqno } ∷ w'.client.reqs)
daemon-early_example =
    daemon-early three_at_a_time reachable 0 4 (some 4096) message_frame message_frame fresh []
      (behind (frame_bytes message_frame ++ [])) refl message_frame-IsWire (omega arith)
      (omega arith, omega arith) refl refl

-- A first frame that is no hello, and a hello that names no version.
not_hello_test :
    check_hello three_at_a_time reachable info message_frame (behind [])
    ≡ err unexpected_frame (record { input = []; client = record new_client { closed = 1 } })
unfolding check_hello close_and_error cmd_bytes
not_hello_test = refl

no_version_test :
    check_hello three_at_a_time reachable info (record hello_frame { hdrs = [] }) (behind [])
    ≡ err missing_header (record { input = []; client = record new_client { closed = 1 } })
unfolding check_hello close_and_error cmd_bytes get_first_header
no_version_test = refl

-- The thread does what the daemon does on an empty connection.
trampoline_test :
    daemon_trampoline three_at_a_time 5 5 info (behind [])
    ≡ daemon three_at_a_time 5 5 (some 4096) (behind [])
unfolding daemon_trampoline
trampoline_test = refl
