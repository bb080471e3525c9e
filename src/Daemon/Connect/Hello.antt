-- ===== src/Daemon/Connect/Hello.antt =====
-- What `bw2_connect` makes of the hello of a router, and of everything else.
use bw2c.Base.{
  ℕ, ◌<◌, ◌≡◌, refl, ap, ◌∙◌, true, none, some, ◌++◌, Bytes, codes, bytes_eq, Bool-cases, inl, inr,
  arith,
}
use bw2c.Frame.{Frame, Header, cmd_bytes, hello, get_first_header}
use bw2c.Frame.Wire.{frame_bytes, IsWireFrame}
use bw2c.Frame.Objects.{HasRoom}
use bw2c.Frame.RoundTrip.{frame_need, objects, read_frame-frame_bytes}
use bw2c.Os.{Source}
use bw2c.Run.{Error, ok, err}
use bw2c.Daemon.Loop.{World}
use bw2c.Daemon.Connect.{
  Dialer, DaemonInfo, frameheap, close_and_error, place_info, start_daemon, check_hello, read_hello,
  handshake, mark_connected, connect,
}

module _ (os : Source) (dialer : Dialer os) where
  open os use {State, incoming, malloc, malloc_keeps}

  place_info_lem :
      (info : DaemonInfo) (w : World os)
      → ((n : ℕ) (s : State) → (malloc n s).0 ≡ true)
      → (s : State) × (place_info os info w ≡ ok tt (record w { input = s }))
        × (incoming s ≡ incoming w.input)
  unfolding place_info
  place_info_lem info w room = elim (Bool-cases info.has_heap) [
    | inl e ↦ (w.input, rw (place_info, e) refl, refl)
    | inr e ↦
        ((malloc 24 w.input).1, rw (place_info, e, room 24 w.input) refl, malloc_keeps 24 w.input)
  ]

  start_daemon_lem :
      (info : DaemonInfo) (w : World os)
      → ((n : ℕ) (s : State) → (malloc n s).0 ≡ true)
      → ((s : State) → (dialer.thread_create s).0 ≡ none)
      → (s : State) × (start_daemon os dialer info w ≡ ok info (record w { input = s }))
        × (incoming s ≡ incoming w.input)
  unfolding start_daemon
  start_daemon_lem info w room starts =
      let (s, e, i) = place_info_lem info w room in
      ((dialer.thread_create s).1, rw (start_daemon, e, starts s) refl, dialer.thread_keeps s ∙ i)

  is_hello : (f : Frame) → f.cmd ≡ codes "helo" → bytes_eq f.cmd (cmd_bytes hello) ≡ true
  unfolding cmd_bytes
  is_hello f c = ap (λ cmd. bytes_eq cmd (cmd_bytes hello)) c

  check_hello_lem :
      (info : DaemonInfo) (f : Frame) (h : Header) (w : World os)
      → f.cmd ≡ codes "helo"
      → get_first_header f (codes "version") ≡ some h
      → check_hello os dialer info f w ≡ start_daemon os dialer info w
  unfolding check_hello
  check_hello_lem info f h w c v = rw (check_hello, is_hello f c, v) refl

  -- A router that answers with a hello that names its version, in its wire format and in whatever
  -- pieces: the client is connected, its daemon is started with the heap that was passed, and the
  -- bytes behind the hello are left for the daemon. This is so where the socket, the connection, the
  -- memory and the thread are to be had, the hello has room in the frame heap, and there is a round of
  -- fuel for each of its objects and one more.
  pub connect-hello :
      (fuel : ℕ) (info : DaemonInfo) (w : World os) (f : Frame) (h : Header) (rest : Bytes)
      → (dialer.socket w.input).0 ≡ true
      → (dialer.connect (dialer.socket w.input).1).0 ≡ true
      → ((n : ℕ) (s : State) → (malloc n s).0 ≡ true)
      → ((s : State) → (dialer.thread_create s).0 ≡ none)
      → incoming (dialer.connect (dialer.socket w.input).1).1 ≡ frame_bytes f ++ rest
      → IsWireFrame f
      → objects f < fuel
      → HasRoom os (frameheap info) 0 (frame_need f)
      → f.cmd ≡ codes "helo"
      → get_first_header f (codes "version") ≡ some h
      → (s : State) × (connect os dialer fuel info w
          ≡ ok info (record { input = s; client = record w.client { connected = true } }))
        × (incoming s ≡ rest)
  unfolding connect handshake read_hello mark_connected
  connect-hello fuel info w f h rest got reached room starts i wire lt heap c v =
      let s₂ = (dialer.connect (dialer.socket w.input).1).1 in
      let (s₃, r, i₃) = read_frame-frame_bytes os f fuel (frameheap info) s₂ rest wire lt heap i in
      let (s₄, d, i₄) = start_daemon_lem info (record w { input = s₃ }) room starts in
      (
        s₄,
        rw
            (
              connect,
              handshake,
              got,
              reached,
              read_hello,
              r,
              check_hello_lem info f h (record w { input = s₃ }) c v,
              d,
            )
            refl,
        i₄ ∙ i₃,
      )

  -- Where `bw2_connect` fails, the client is not connected by it, and its list of requests is as it was.
  connect_failed :
      (fuel : ℕ) (info : DaemonInfo) (w w' : World os) (e : Error)
      → connect os dialer fuel info w ≡ err e w'
      → (w'.client.connected ≡ w.client.connected) × (w'.client.reqs ≡ w.client.reqs)
  unfolding connect handshake read_hello check_hello start_daemon place_info close_and_error
      mark_connected
  connect_failed fuel info w w' e h = ground arith
