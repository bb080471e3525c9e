-- ===== src/Daemon/Client.antt =====
-- `struct bw2_client` (api.h), the functions of api.c on it, and `bw2_transact` (daemon.c). The locks
-- make each function one step, but for `bw2_transact`, which has two: see `enqueue` and `send_out`.
pub mod Transact
use bw2c.Base.{
  ℕ, ◌+◌, ◌%◌, ◌^◌, ◌≡◌, Bool, true, false, Option, none, some, List, [], ◌∷◌, if◌then◌else◌,
}
use bw2c.Frame.{Frame}
use bw2c.Frame.Write.{write_frame}
use bw2c.Os.{Sink}
use bw2c.Run.{Error, Run, ok, err, fault, spin, connection_lost, system, synchronization}
use bw2c.Daemon.Request.{ReqCtx}

-- `closed` counts the calls of `close` on `connfd`. `ended` are the requests that left the list.
pub record Client : Type 0 where
  pub reqs : List ReqCtx
  pub curseqno : ℕ
  pub connected : Bool
  pub closed : ℕ
  pub ended : List ReqCtx

-- The result of `bw2_mutexInit` on the three locks, in their order, true for 0.
unfoldable pub client_init : (outlock reqslock seqnolock : Bool) → Run Client (Unit {0})
client_init outlock reqslock seqnolock =
    let client : Client = record {
      reqs = [];
      curseqno = 0;
      connected = false;
      closed = 0;
      ended = [];
    } in
    if outlock
    then (if reqslock
        then (if seqnolock then ok tt client else err synchronization client)
        else err synchronization client)
    else err synchronization client

-- `& 0x7FFFFFFF` is the remainder by 2 ^ 31. At 0x7FFFFFFF the sum overflows the `int32_t`, which the C language
-- does not define; the model takes the number to wrap around there.
unfoldable pub get_seq_no : Client → ℕ × Client
get_seq_no client = (client.curseqno, record client { curseqno = (client.curseqno + 1) % 2 ^ 31 })

unfoldable pub is_connected : Client → Bool
is_connected client = client.connected

-- `bw2_disconnect`, and what the daemon does first when the connection is lost.
unfoldable pub disconnect : Client → Client
disconnect client =
    if client.connected
    then record client { connected = false; closed = client.closed + 1 }
    else client

-- What `bw2_transact` does when a write finds the connection lost; it does not look at `connected`.
unfoldable pub drop : Client → Client
drop client = record client { connected = false; closed = client.closed + 1 }

-- The part of `bw2_transact` under the lock of the list; a code that is not 0 ends the function.
unfoldable pub enqueue : Frame → ReqCtx → Client → Option Error × Client
enqueue frame reqctx client =
    if client.connected
    then (none, record client { reqs = record reqctx { seqno = frame.seqno } ∷ client.reqs })
    else (some connection_lost, client)

module _ (out : Sink) where
  open out use {State}

  pub record World : Type 0 where
    pub output : State
    pub client : Client

  -- `is_lost` tells of a failed call whether `errno` is ETIMEDOUT, ECONNRESET, ECONNREFUSED or EBADF,
  -- and `fuel` bounds the calls of `send` for one array.
  module _ (is_lost : State → Bool) (fuel : ℕ) where
    -- The part under `outlock`, with the code that `bw2_transact` returns.
    pub send_out : Frame → Client → State → Run World (Option Error)
    send_out frame client s = elim (write_frame out fuel frame s) [
      | ok _ s' ↦ ok none (record { output = s'; client = client })
      | err system s' ↦
          if is_lost s'
          then ok (some connection_lost) (record { output = s'; client = drop client })
          else ok none (record { output = s'; client = client })
      | err _ s' ↦ ok none (record { output = s'; client = client })
      | fault ↦ fault
      | spin ↦ spin
    ]

    -- `reqctx` may be NULL.
    pub transact : Frame → Option ReqCtx → World → Run World (Option Error)
    transact frame none w = send_out frame w.client w.output
    transact frame (some reqctx) w =
        let (code, client) = enqueue frame reqctx w.client in
        elim code [
          | some e ↦ ok (some e) (record w { client = client })
          | none ↦ send_out frame client w.output
        ]
