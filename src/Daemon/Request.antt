-- ===== src/Daemon/Request.antt =====
-- `struct bw2_reqctx` of daemon.h and its operations in daemon.c, and what a callback delivers to the
-- application (api.h). A function of daemon.c holds the lock of the context from its start to its
-- end, so that it is one step. The condition variable has no state.
use bw2c.Base.{ℕ, Bool, true, false, Option, List, [], ◌∷◌, Bytes}
use bw2c.Frame.{PayloadObj, RoutingObj}
use bw2c.Objects.{Buffer}
use bw2c.Run.{Error, Run, ok, spin}

-- A pointer and a length that are not followed by a NUL; `none` is NULL with 0.
abbrev pub Slice : Type 0
Slice = Option (Bytes × ℕ)

-- `error` is `none` for 0.
pub record SimpleMessage : Type 0 where
  pub sender : Slice
  pub uri : Slice
  pub pos : List PayloadObj
  pub ros : List RoutingObj
  pub error : Option Error

pub record SimpleChain : Type 0 where
  pub hash : Slice
  pub permissions : Slice
  pub to : Slice
  pub uri : Slice
  pub content : Slice

-- The arguments of one call of the application's function: `on_message` of the two contexts, or
-- `on_chain`. `none` is a null pointer.
pub data Delivery : Type 0 where
  message : Option SimpleMessage → (final : Bool) → (error : Option Error) → Delivery
  child : Slice → (final : Bool) → (error : Option Error) → Delivery
  chain : Option SimpleChain → (final : Bool) → (error : Option Error) → Delivery

-- The function of the application, or NULL. Its answer depends on all that it was given so far, the
-- last first.
abbrev pub Application : Type 0
Application = Option (List Delivery → Bool)

-- `onframe` with its `ctx`: a callback of api.c with the buffers that it fills, each of which may be NULL.
pub data Handler : Type 0 where
  simple_req : Handler
  set_entity : (vkhash : Option Buffer) → Handler
  subscribe : (smctx : Application) → Handler
  simple_message : (smctx : Application) → Handler
  list : (lctx : Application) → Handler
  create_dot : (dothash : Option Buffer) → (dot : Option Buffer) → Handler
  create_entity : (vkhash : Option Buffer) → (vk : Option Buffer) → Handler
  create_dot_chain : (dotchainhash : Option Buffer) → Handler
  build_chain : (scctx : Option Application) → Handler

-- `rv` is `none` for 0. `handle` is the buffer that `bw2_subscribe` passes with its context.
-- `delivered` is the trace of the calls of the application.
pub record ReqCtx : Type 0 where
  pub onframe : Handler
  pub ready : Bool
  pub rv : Option Error
  pub seqno : ℕ
  pub handle : Option Buffer
  pub delivered : List Delivery

-- The fields that are not set keep what is in the memory.
unfoldable pub reqctx_init : ReqCtx → Handler → ReqCtx
reqctx_init rctx handler = record rctx { onframe = handler; ready = false }

-- `bw2_reqctxSignal` and `bw2_reqctxBroadcast`.
unfoldable pub reqctx_signal : ReqCtx → ReqCtx
reqctx_signal rctx = record rctx { ready = true }

unfoldable pub reqctx_signalled : ReqCtx → Bool
reqctx_signalled rctx = rctx.ready

-- The states as the waiting thread finds them at each wakeup, with its context: it waits on while
-- that is not ready, and for ever when no further wakeup comes.
unfoldable pub reqctx_wait : {W : Type 0} → List (W × ReqCtx) → Run W ReqCtx
reqctx_wait [] = spin
reqctx_wait ((w, rctx) ∷ wakeups) = elim rctx.ready [
  | true ↦ ok rctx w
  | false ↦ reqctx_wait wakeups
]
