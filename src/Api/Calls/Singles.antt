-- ===== src/Api/Calls/Singles.antt =====
-- The calls that are answered by one frame, each from its start to its end.
use bw2c.Base.{
  ℕ, suc, ◌<◌, ◌^◌, ◌≡◌, sym, ap, ◌∙◌, Bool, true, Option, none, ◌∷◌, ◌++◌, Bytes, length, All,
}
use bw2c.Frame.{Frame, frame_must_response}
use bw2c.Frame.Length.{frame_length}
use bw2c.Frame.Wire.{frame_bytes}
use bw2c.Objects.{Buffer}
use bw2c.Os.{Sink}
use bw2c.Run.{Error, Run, ok}
use bw2c.Utils.Sends.{SendsAll}
use bw2c.Daemon.Request.{Handler, simple_req, set_entity, create_entity, create_dot_chain, ReqCtx}
use bw2c.Daemon.Client.{get_seq_no, World}
use bw2c.Daemon.Dispatch.Selects.{Others}
use bw2c.Api.Callbacks.Outcomes.{IsSingle}
use bw2c.Api.Params.{PublishParams, CreateEntityParams, CreateDotChainParams}
use bw2c.Api.Requests.{
  set_entity_request, publish_request, create_entity_request, create_dot_chain_request,
  unsubscribe_request,
}
use bw2c.Api.Requests.Requirements.{IsPublication, IsNewEntity}
use bw2c.Api.Requests.Sendable.{IsSendable, IsBlob, IsSendable-IsWireFrame}
use bw2c.Api.Requests.Valid.{
  publish_request-IsSendable, create_entity_request-IsSendable, create_dot_chain_request-IsSendable,
  unsubscribe_request-IsSendable, set_entity_request-IsSendable,
}
use bw2c.Api.Calls.{
  new_context, own_code, context_code, transact_wait, with_seq_no, publish_call, set_entity_call,
  create_entity_call, create_dot_chain_call, unsubscribe_call,
}
use bw2c.Api.Calls.Answered.{daemon_serves, transact_wait-answered}

-- How a call takes its code from its context once it has waited.
abbrev TakesCode :
    {W : Type 0} → (Run W (Option Error × ReqCtx) → Run W (Option Error × ReqCtx)) → Type 0
TakesCode {W} code =
    (r : ReqCtx) (w : W) (v : Option Error) → r.rv ≡ v → code (ok (none, r) w) ≡ ok (v, r) w

own_code-TakesCode : {W : Type 0} → TakesCode {W = W} own_code
own_code-TakesCode r w v e = ap (λ c. ok (c, r) w) e

context_code-TakesCode : {W : Type 0} → TakesCode {W = W} context_code
context_code-TakesCode r w v e = ap (λ c. ok (c, r) w) e

module _ (out : Sink) where
  open out use {State, sent}

  -- The call returns the verdict on `f`; the bytes of the request `req` went out, the counter is one on, and the
  -- list of requests is what it was.
  abbrev pub IsAnswered :
      (f req : Frame) → World out → Run (World out) (Option Error × ReqCtx) → Type 0
  IsAnswered f req w result =
      (s' : State) × (r' : ReqCtx) × (result
        ≡ ok (frame_must_response f, r')
            (record {
              output = s';
              client = record (get_seq_no w.client).1 { ended = r' ∷ w.client.ended };
            }))
      × (sent s' ≡ sent w.output ++ frame_bytes req)

  module _ (is_lost : State → Bool) (n : ℕ) (all : SendsAll out) (memory : ReqCtx) (f : Frame)
      (w : World out) where
    answered :
        (req : Frame) (handler : Handler)
        (code : Run (World out) (Option Error × ReqCtx) → Run (World out) (Option Error × ReqCtx))
        → TakesCode code
        → IsSingle handler
        → IsSendable w.client.curseqno req
        → w.client.curseqno < 2 ^ 31
        → frame_length req < 10 ^ 10
        → w.client.connected ≡ true
        → f.seqno ≡ w.client.curseqno
        → Others f w.client.reqs
        → IsAnswered f req w (
            code (
              transact_wait out is_lost
                (suc (suc n))
                (daemon_serves out f)
                req
                (new_context memory handler none)
                (record w { client = (get_seq_no w.client).1 })))
    unfolding get_seq_no new_context
    answered req handler code takes single sendable num len c e others =
        let (s', r', t, v, i) =
          transact_wait-answered out is_lost n all req f (new_context memory handler none)
            (record w { client = (get_seq_no w.client).1 })
            (IsSendable-IsWireFrame w.client.curseqno req sendable num len) c single
            (e ∙ sym sendable.numbered) others in
        (s', r', ap code t ∙ takes r' _ (frame_must_response f) v, i)

    -- Five calls, from their start to the code that they return, where the parameters are valid, the counter is below
    -- 2^31, the length of each request has at most ten digits, and `send` takes all that it is given. On a connected
    -- client each sends its request in the wire format; the daemon serves the frame with its number, for which no other
    -- request waits; and the call returns the verdict of `bw2_frameMustResponse` on this frame, the counter being one
    -- on and the list of requests what it was.
    pub calls_answered :
        (publication : PublishParams) (entity : Bytes) (new_entity : CreateEntityParams)
        (chain : CreateDotChainParams) (handle : Buffer) (vkhash vk hash : Option Buffer)
        → IsPublication publication
        → length entity < 10 ^ 9
        → IsNewEntity new_entity
        → All IsBlob chain.dots
        → IsBlob handle
        → w.client.curseqno < 2 ^ 31
        → frame_length (publish_request publication w.client.curseqno) < 10 ^ 10
        → frame_length (set_entity_request entity (length entity) w.client.curseqno) < 10 ^ 10
        → frame_length (create_entity_request new_entity w.client.curseqno) < 10 ^ 10
        → frame_length (create_dot_chain_request chain w.client.curseqno) < 10 ^ 10
        → frame_length (unsubscribe_request handle w.client.curseqno) < 10 ^ 10
        → w.client.connected ≡ true
        → f.seqno ≡ w.client.curseqno
        → Others f w.client.reqs
        → IsAnswered f
            (publish_request publication w.client.curseqno)
            w
            (publish_call out is_lost (suc (suc n)) (daemon_serves out f) memory publication w)
          × IsAnswered f (set_entity_request entity (length entity) w.client.curseqno) w (
              set_entity_call out is_lost
                (suc (suc n))
                (daemon_serves out f)
                memory
                entity
                (length entity)
                vkhash
                w)
          × IsAnswered f (create_entity_request new_entity w.client.curseqno) w (
              create_entity_call out is_lost
                (suc (suc n))
                (daemon_serves out f)
                memory
                new_entity
                vkhash
                vk
                w)
          × IsAnswered f (create_dot_chain_request chain w.client.curseqno) w (
              create_dot_chain_call out is_lost
                (suc (suc n))
                (daemon_serves out f)
                memory
                chain
                hash
                w)
          × IsAnswered f
              (unsubscribe_request handle w.client.curseqno)
              w
              (unsubscribe_call out is_lost (suc (suc n)) (daemon_serves out f) memory handle w)
    unfolding publish_call set_entity_call create_entity_call create_dot_chain_call unsubscribe_call
        with_seq_no get_seq_no
    calls_answered publication entity new_entity chain handle vkhash vk hash vp ve vn vc vh num lp
          le ln lc lh c e others =
        let k = w.client.curseqno in
        (
          answered (publish_request publication k) simple_req own_code own_code-TakesCode tt
              (publish_request-IsSendable publication k vp) num lp c e others,
          answered (set_entity_request entity (length entity) k) (set_entity vkhash) own_code
              own_code-TakesCode tt (set_entity_request-IsSendable entity k ve) num le c e others,
          answered (create_entity_request new_entity k) (create_entity vkhash vk) context_code
              context_code-TakesCode tt (create_entity_request-IsSendable new_entity k vn) num ln c
              e others,
          answered (create_dot_chain_request chain k) (create_dot_chain hash) context_code
              context_code-TakesCode tt (create_dot_chain_request-IsSendable chain k vc) num lc c e
              others,
          answered (unsubscribe_request handle k) simple_req context_code context_code-TakesCode tt
              (unsubscribe_request-IsSendable handle k vh) num lh c e others,
        )
