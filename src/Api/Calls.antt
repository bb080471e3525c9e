-- ===== src/Api/Calls.antt =====
-- The calls of api.c as wholes: a number is drawn, the request is built, sent and waited for, and a
-- code is returned. While a call waits the other threads work on.
pub mod Answered
pub mod Chains
pub mod Refused
pub mod Singles
use bw2c.Base.{ℕ, Bool, true, false, Option, none, some, List, [], ◌∷◌, Bytes}
use bw2c.Frame.{Frame}
use bw2c.Objects.{Buffer}
use bw2c.Os.{Sink}
use bw2c.Run.{Error, Run, ok, err, fault, spin, operation_not_supported}
use bw2c.Daemon.Request.{
  Application, Handler, simple_req, set_entity, subscribe, simple_message, list, create_dot,
  create_entity, create_dot_chain, build_chain, ReqCtx, reqctx_init, reqctx_wait,
}
use bw2c.Daemon.Client.{Client, get_seq_no, World, transact}
use bw2c.Api.Params.{
  PublishParams, SubscribeParams, ListParams, CreateDotParams, CreateDotChainParams,
  CreateEntityParams, BuildChainParams,
}
use bw2c.Api.Requests.{
  set_entity_request, publish_request, subscribe_request, query_request, list_request,
  create_dot_request, create_entity_request, create_dot_chain_request, build_chain_request,
  unsubscribe_request,
}

-- The context that a call sets up in `memory`, which keeps the old `rv`. No calls of the application
-- have been made for it.
pub new_context : ReqCtx → Handler → (handle : Option Buffer) → ReqCtx
unfolding reqctx_init
new_context memory handler handle = record (reqctx_init memory handler) {
  handle = handle;
  delivered = [];
}

-- A function that returns its code in a variable `rv` of its own.
abbrev pub own_code : {W : Type 0} → Run W (Option Error × ReqCtx) → Run W (Option Error × ReqCtx)
own_code (ok (none, r) w) = ok (r.rv, r) w
own_code other = other

-- A function that returns `reqctx.rv`, whatever `bw2_transact` returned.
abbrev pub context_code :
    {W : Type 0} → Run W (Option Error × ReqCtx) → Run W (Option Error × ReqCtx)
context_code (ok (_, r) w) = ok (r.rv, r) w
context_code other = other

-- The code of `bw2_transact` was 0, and the context is ready.
abbrev pub waited : {W : Type 0} → Run W ReqCtx → Run W (Option Error × ReqCtx)
waited (ok r w) = ok (none, r) w
waited (err e w) = err e w
waited fault = fault
waited spin = spin

module _ (out : Sink) where
  open out use {State}

  -- What the other threads do: the state and the context of the call at each wakeup of the thread that
  -- waits for it.
  abbrev pub Others : Type 0
  Others = World out → ReqCtx → List (World out × ReqCtx)

  module _ (is_lost : State → Bool) (fuel : ℕ) (others : Others) where
    -- The transaction, and the wait if its code is 0.
    pub transact_wait : Frame → ReqCtx → World out → Run (World out) (Option Error × ReqCtx)
    transact_wait req reqctx w =
        let sent_ctx = record reqctx { seqno = req.seqno } in
        elim (transact out is_lost fuel req (some reqctx) w) [
          | ok none w' ↦ waited (reqctx_wait (others w' sent_ctx))
          | ok (some e) w' ↦ ok (some e, sent_ctx) w'
          | err e w' ↦ err e w'
          | fault ↦ fault
          | spin ↦ spin
        ]

    -- `bw2_query` does not look at the code.
    pub transact_wait_always : Frame → ReqCtx → World out → Run (World out) (Option Error × ReqCtx)
    transact_wait_always req reqctx w =
        let sent_ctx = record reqctx { seqno = req.seqno } in
        elim (transact out is_lost fuel req (some reqctx) w) [
          | ok _ w' ↦ waited (reqctx_wait (others w' sent_ctx))
          | err e w' ↦ err e w'
          | fault ↦ fault
          | spin ↦ spin
        ]

    -- The number is drawn first.
    unfoldable pub with_seq_no :
        (ℕ → World out → Run (World out) (Option Error × ReqCtx))
        → World out
        → Run (World out) (Option Error × ReqCtx)
    with_seq_no body w =
        let (seqno, client) = get_seq_no w.client in body seqno (record w { client = client })

    -- The calls. `memory` is what stands where the context is set up.
    module _ (memory : ReqCtx) where
      pub set_entity_call :
          (entity : Bytes) (entitylen : ℕ) (vkhash : Option Buffer)
          → World out
          → Run (World out) (Option Error × ReqCtx)
      set_entity_call entity entitylen vkhash = with_seq_no λ seqno w. own_code (
          transact_wait (set_entity_request entity entitylen seqno)
            (new_context memory (set_entity vkhash) none) w)

      pub publish_call : PublishParams → World out → Run (World out) (Option Error × ReqCtx)
      publish_call p = with_seq_no λ seqno w.
          own_code (transact_wait (publish_request p seqno) (new_context memory simple_req none) w)

      pub subscribe_call :
          SubscribeParams
          → (subctx : Application) (handle : Option Buffer) → World out
          → Run (World out) (Option Error × ReqCtx)
      subscribe_call p subctx handle = with_seq_no λ seqno w. context_code (
          transact_wait (subscribe_request p seqno) (new_context memory (subscribe subctx) handle)
            w)

      pub query_call :
          SubscribeParams
          → (qctx : Application) → World out
          → Run (World out) (Option Error × ReqCtx)
      query_call p qctx = with_seq_no λ seqno w. context_code (
          transact_wait_always (query_request p seqno)
            (new_context memory (simple_message qctx) none) w)

      pub list_call :
          ListParams → (lctx : Application) → World out → Run (World out) (Option Error × ReqCtx)
      list_call p lctx = with_seq_no λ seqno w.
          context_code
            (transact_wait (list_request p seqno) (new_context memory (list lctx) none) w)

      unfoldable pub create_dot_call :
          CreateDotParams
          → (dothash dot : Option Buffer) → World out
          → Run (World out) (Option Error × ReqCtx)
      create_dot_call p dothash dot = with_seq_no λ seqno w. elim (create_dot_request p seqno) [
        | none ↦ ok (some operation_not_supported, memory) w
        | some req ↦
            context_code (transact_wait req (new_context memory (create_dot dothash dot) none) w)
      ]

      pub create_entity_call :
          CreateEntityParams
          → (vkhash vk : Option Buffer) → World out
          → Run (World out) (Option Error × ReqCtx)
      create_entity_call p vkhash vk = with_seq_no λ seqno w. context_code (
          transact_wait (create_entity_request p seqno)
            (new_context memory (create_entity vkhash vk) none) w)

      pub create_dot_chain_call :
          CreateDotChainParams
          → (dotchainhash : Option Buffer) → World out
          → Run (World out) (Option Error × ReqCtx)
      create_dot_chain_call p dotchainhash = with_seq_no λ seqno w. context_code (
          transact_wait (create_dot_chain_request p seqno)
            (new_context memory (create_dot_chain dotchainhash) none) w)

      -- The application's function is not reachable: NULL is passed for the context.
      pub build_chain_call : BuildChainParams → World out → Run (World out) (Option Error × ReqCtx)
      build_chain_call p = with_seq_no λ seqno w. context_code (
          transact_wait (build_chain_request p seqno) (new_context memory (build_chain none) none)
            w)

      pub unsubscribe_call : (handle : Buffer) → World out → Run (World out) (Option Error × ReqCtx)
      unsubscribe_call handle = with_seq_no λ seqno w.
          context_code (
            transact_wait (unsubscribe_request handle seqno) (new_context memory simple_req none) w)
