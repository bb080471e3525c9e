-- ===== src/Api/Calls/Refused.antt =====
-- The calls of api.c on a client that is not connected.
use bw2c.Base.{
  ℕ, ◌≡◌, refl, ap, sym, ◌∙◌, ◌≢◌, if◌then◌else◌, Bool-cases, inl, inr, Bool, false, Option, none,
  some, List, [], ◌∷◌, Bytes, All,
}
use mathlib.Core.Path.{subst}
use bw2c.Frame.{Frame}
use bw2c.Objects.{Buffer}
use bw2c.Os.{Sink}
use bw2c.Run.{Error, Run, ok, spin, connection_lost, operation_not_supported}
use bw2c.Daemon.Request.{Application, ReqCtx, reqctx_init, reqctx_wait}
use bw2c.Daemon.Client.{get_seq_no, World}
use bw2c.Daemon.Client.Transact.{transact_refused}
use bw2c.Api.Params.{
  PublishParams, SubscribeParams, ListParams, CreateDotParams, CreateDotChainParams,
  CreateEntityParams, BuildChainParams,
}
use bw2c.Api.Requests.{create_dot_request}
use bw2c.Api.Requests.Numbered.{query_request-seqno}
use bw2c.Api.Calls.{
  new_context, own_code, context_code, transact_wait, transact_wait_always, with_seq_no, Others,
  set_entity_call, publish_call, subscribe_call, query_call, list_call, create_dot_call,
  create_entity_call, create_dot_chain_call, build_chain_call, unsubscribe_call,
}

-- The code that a call returns, if it returns, and what it leaves behind.
abbrev pub outcome_of : {W : Type 0} → Run W (Option Error × ReqCtx) → Option (Option Error × W)
outcome_of (ok (code, r) w) = some (code, w)
outcome_of _ = none

-- A number was drawn, and nothing else has changed.
abbrev pub drawn : {out : Sink} → World out → World out
drawn w = record w { client = (get_seq_no w.client).1 }

module _ (out : Sink) (is_lost : out.State → Bool) (fuel : ℕ) (others : Others out) where
  open out use {State}

  transact_wait_refused :
      (req : Frame) (r : ReqCtx) (w : World out)
      → w.client.connected ≡ false
      → transact_wait out is_lost fuel others req r w
        ≡ ok (some connection_lost, record r { seqno = req.seqno }) w
  unfolding transact_wait
  transact_wait_refused req r w c =
      rw (transact_wait, transact_refused out is_lost fuel req r w c) refl

  create_dot_call-refused :
      (memory : ReqCtx) (w : World out) (dot : CreateDotParams) (dothash dotobj : Option Buffer)
      → w.client.connected ≡ false
      → outcome_of (create_dot_call out is_lost fuel others memory dot dothash dotobj w)
        ≡ some (if dot.is_permission then some operation_not_supported else memory.rv, drawn w)
  unfolding create_dot_call create_dot_request with_seq_no get_seq_no new_context reqctx_init
  create_dot_call-refused memory w dot dothash dotobj c = elim (Bool-cases dot.is_permission) [
    | inl e ↦ rw e refl
    | inr e ↦ rw (e, transact_wait_refused _ _ (drawn w) c) refl
  ]

  -- On a client that is not connected the nine calls other than `bw2_query` return at once, whatever the other
  -- threads do, with nothing sent, no request added, and a number drawn. `bw2_publish` and `bw2_setEntity`
  -- report the loss, and `bw2_createDOT` that permission DOTs are not supported; apart from that, the seven
  -- others return what stood in the memory of their context, which may be 0.
  pub calls_refused :
      (memory : ReqCtx) (w : World out) (publication : PublishParams) (entity : Bytes)
      (entitylen : ℕ) (vkhash vk : Option Buffer) (subscription : SubscribeParams)
      (app : Application) (handle : Buffer) (listing : ListParams) (dot : CreateDotParams)
      (new_entity : CreateEntityParams) (new_chain : CreateDotChainParams)
      (build : BuildChainParams)
      → w.client.connected ≡ false
      → (outcome_of (publish_call out is_lost fuel others memory publication w)
          ≡ some (some connection_lost, drawn w))
        × (outcome_of (set_entity_call out is_lost fuel others memory entity entitylen vkhash w)
            ≡ some (some connection_lost, drawn w))
        × (outcome_of
              (subscribe_call out is_lost fuel others memory subscription app (some handle) w)
            ≡ some (memory.rv, drawn w))
        × (outcome_of (list_call out is_lost fuel others memory listing app w)
            ≡ some (memory.rv, drawn w))
        × (outcome_of (create_dot_call out is_lost fuel others memory dot vkhash vk w)
            ≡ some (if dot.is_permission then some operation_not_supported else memory.rv, drawn w))
        × (outcome_of (create_entity_call out is_lost fuel others memory new_entity vkhash vk w)
            ≡ some (memory.rv, drawn w))
        × (outcome_of (create_dot_chain_call out is_lost fuel others memory new_chain vkhash w)
            ≡ some (memory.rv, drawn w))
        × (outcome_of (build_chain_call out is_lost fuel others memory build w)
            ≡ some (memory.rv, drawn w))
        × (outcome_of (unsubscribe_call out is_lost fuel others memory handle w)
            ≡ some (memory.rv, drawn w))
  unfolding publish_call set_entity_call subscribe_call list_call create_entity_call
      create_dot_chain_call build_chain_call unsubscribe_call with_seq_no get_seq_no new_context
      reqctx_init
  calls_refused memory w publication entity entitylen vkhash vk subscription app handle listing dot
        new_entity new_chain build c =
      let refused = λ (req : Frame) (r : ReqCtx). transact_wait_refused req r (drawn w) c in
      (
        ap (λ m. outcome_of (own_code m)) (refused _ _),
        ap (λ m. outcome_of (own_code m)) (refused _ _),
        ap (λ m. outcome_of (context_code m)) (refused _ _),
        ap (λ m. outcome_of (context_code m)) (refused _ _),
        create_dot_call-refused memory w dot vkhash vk c,
        ap (λ m. outcome_of (context_code m)) (refused _ _),
        ap (λ m. outcome_of (context_code m)) (refused _ _),
        ap (λ m. outcome_of (context_code m)) (refused _ _),
        ap (λ m. outcome_of (context_code m)) (refused _ _),
      )

  never_ready :
      (wakeups : List (World out × ReqCtx))
      → All (λ x. x.1.ready ≡ false) wakeups
      → reqctx_wait wakeups ≡ spin
  unfolding reqctx_wait
  never_ready [] h = refl
  never_ready ((w, r) ∷ wakeups) (h, hs) = rw (reqctx_wait, h) (never_ready wakeups hs)

  -- The context stays as it is at every wakeup.
  stays_asleep :
      (r : ReqCtx) (wakeups : List (World out × ReqCtx))
      → r.ready ≡ false
      → All (λ x. x.1 ≡ r) wakeups
      → All (λ x. x.1.ready ≡ false) wakeups
  stays_asleep r [] e h = tt
  stays_asleep r ((w, r') ∷ wakeups) e (h, hs) =
      (ap (λ c. c.ready) h ∙ e, stays_asleep r wakeups e hs)

  waits_always :
      (req : Frame) (r : ReqCtx) (w : World out)
      → w.client.connected ≡ false
      → r.ready ≡ false
      → All (λ x. x.1 ≡ record r { seqno = req.seqno }) (others w (record r { seqno = req.seqno }))
      → transact_wait_always out is_lost fuel others req r w ≡ spin
  unfolding transact_wait_always
  waits_always req r w c e h =
      let sent : ReqCtx = record r { seqno = req.seqno } in
      rw
        (
          transact_wait_always,
          transact_refused out is_lost fuel req r w c,
          never_ready (others w sent) (stays_asleep sent (others w sent) e h),
        )
        refl

  -- On a client that is not connected `bw2_query` does not return, where no outstanding request has the number
  -- that it draws, and the other threads leave a context alone that waits for a number which no request in the
  -- list has: its own request is not put there, and it waits, however often it wakes up.
  pub query_call-refused :
      (memory : ReqCtx) (p : SubscribeParams) (app : Application) (w : World out)
      → w.client.connected ≡ false
      → All (λ q. q.seqno ≢ w.client.curseqno) w.client.reqs
      → ((w' : World out) (r : ReqCtx)
          → All (λ q. q.seqno ≢ r.seqno) w'.client.reqs
          → All (λ x. x.1 ≡ r) (others w' r))
      → query_call out is_lost fuel others memory p app w ≡ spin
  unfolding query_call with_seq_no get_seq_no new_context reqctx_init
  query_call-refused memory p app w c absent alone = ap context_code (
      waits_always _ _ (drawn w) c refl (
        alone (drawn w) _ (
          subst (λ n. All (λ q. q.seqno ≢ n) w.client.reqs) (sym (query_request-seqno p _))
            absent)))
