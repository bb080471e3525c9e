-- ===== src/Daemon/Connect.antt =====
-- `bw2_connect` of api.c, and the thread that it starts.
pub mod Hello
pub mod Fails
pub mod Early
use bw2c.Base.{ℕ, ◌+◌, ◌≡◌, Bool, true, false, Option, none, some, if◌then◌else◌, codes, bytes_eq}
use bw2c.Frame.{Frame, Header, cmd_bytes, hello, get_first_header}
use bw2c.Frame.Read.{read_frame}
use bw2c.Os.{Source}
use bw2c.Run.{
  Error, Run, ok, err, fault, spin, system_resource_unavailable, connection_lost, unexpected_frame,
  missing_header,
}
use bw2c.Daemon.Client.{Client}
use bw2c.Daemon.Loop.{World, daemon}

-- The calls of the operating system that open a connection: whether `socket` and `connect` succeed, and
-- the code of `bw2_threadCreate`.
pub record Dialer (os : Source) : Type 0 where
  pub socket : os.State → Bool × os.State
  pub connect : os.State → Bool × os.State
  pub thread_create : os.State → Option Error × os.State
  -- Starting a thread leaves the connection alone.
  pub thread_keeps : (s : os.State) → os.incoming (thread_create s).1 ≡ os.incoming s

-- `struct bw2_daemon_info`, without the client.
pub record DaemonInfo : Type 0 where
  pub heapsize : ℕ
  pub has_heap : Bool

-- The frame heap, or NULL.
abbrev pub frameheap : DaemonInfo → Option ℕ
frameheap info = if info.has_heap then some info.heapsize else none

-- `sizeof(struct bw2_daemon_info)` on a 64-bit machine.
abbrev info_size : ℕ
info_size = 24

module _ (os : Source) where
  open os use {State, malloc}

  -- `_bw2_daemon_trampoline`.
  unfoldable pub daemon_trampoline :
      (fuel rounds : ℕ) → DaemonInfo → World os → Run (World os) (Unit {0})
  daemon_trampoline fuel rounds info = daemon os fuel rounds (frameheap info)

  -- After `client->connfd = sock`, so that the socket that is closed is the client's.
  unfoldable pub close_and_error : Error → World os → Run (World os) DaemonInfo
  close_and_error e w =
      err e (record w { client = record w.client { closed = w.client.closed + 1 } })

  -- The memory for the arguments of the thread: the frame heap itself, which has room for them as the
  -- hello was read into it, or from `malloc`, whose result is not looked at.
  pub place_info : DaemonInfo → World os → Run (World os) (Unit {0})
  place_info info w =
      if info.has_heap
      then ok tt w
      else (let (got, s) = malloc info_size w.input in
          if got then ok tt (record w { input = s }) else fault)

  module _ (dialer : Dialer os) where
    -- From the hello on. The thread runs as soon as it is created.
    pub start_daemon : DaemonInfo → World os → Run (World os) DaemonInfo
    start_daemon info w = elim (place_info info w) [
      | ok _ w' ↦
          let (rv, s) = dialer.thread_create w'.input in
          elim rv [
            | none ↦ ok info (record w' { input = s })
            | some e ↦ close_and_error e (record w' { input = s })
          ]
      | err e w' ↦ err e w'
      | fault ↦ fault
      | spin ↦ spin
    ]

    unfoldable pub check_hello : DaemonInfo → Frame → World os → Run (World os) DaemonInfo
    check_hello info frame w =
        if bytes_eq frame.cmd (cmd_bytes hello)
        then elim (get_first_header frame (codes "version")) [
          | none ↦ close_and_error missing_header w
          | some _ ↦ start_daemon info w
        ]
        else close_and_error unexpected_frame w

    pub read_hello : (fuel : ℕ) → DaemonInfo → World os → Run (World os) DaemonInfo
    read_hello fuel info w = elim (read_frame os fuel (frameheap info) w.input) [
      | ok frame s ↦ check_hello info frame (record w { input = s })
      | err e s ↦ close_and_error e (record w { input = s })
      | fault ↦ fault
      | spin ↦ spin
    ]

    -- All but the last assignment.
    unfoldable pub handshake : (fuel : ℕ) → DaemonInfo → World os → Run (World os) DaemonInfo
    handshake fuel info w =
        let (got, s₁) = dialer.socket w.input in
        let (reached, s₂) = dialer.connect s₁ in
        if got
        then (if reached
            then read_hello fuel info (record w { input = s₂ })
            else err connection_lost (record w { input = s₂ }))
        else err system_resource_unavailable (record w { input = s₁ })

    -- `client->connected = true`, which is the last that `bw2_connect` does, without a lock.
    pub mark_connected : World os → World os
    mark_connected w = record w { client = record w.client { connected = true } }

    unfoldable pub connect : (fuel : ℕ) → DaemonInfo → World os → Run (World os) DaemonInfo
    connect fuel info w = elim (handshake fuel info w) [
      | ok info' w' ↦ ok info' (mark_connected w')
      | err e w' ↦ err e w'
      | fault ↦ fault
      | spin ↦ spin
    ]
