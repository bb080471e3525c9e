-- ===== src/Api/Calls/Chains.antt =====
-- `bw2_buildChain` and the frame that follows its response.
use bw2c.Base.{
  ℕ, suc, ◌<◌, ◌^◌, ◌≡◌, refl, sym, ap, ◌∙◌, Bool, true, false, none, some, [], ◌∷◌, ◌==◌, ==_refl,
}
use bw2c.Frame.{Frame, frame_must_response}
use bw2c.Frame.Length.{frame_length}
use bw2c.Os.{Sink}
use bw2c.Run.{ok, fault}
use bw2c.Utils.Sends.{SendsAll}
use bw2c.Daemon.Request.{build_chain, ReqCtx, reqctx_init}
use bw2c.Daemon.Client.{Client, get_seq_no, World}
use bw2c.Daemon.Client.Transact.{transact-sends}
use bw2c.Daemon.Dispatch.{dispatch, handle_frame, is_final}
use bw2c.Daemon.Dispatch.Selects.{Others, dispatch-selects}
use bw2c.Daemon.Loop.{serve}
use bw2c.Api.Callbacks.Outcomes.{build_chain_null_response, build_chain_null_later}
use bw2c.Api.Params.{BuildChainParams}
use bw2c.Api.Requests.{build_chain_request}
use bw2c.Api.Requests.Requirements.{IsChainQuery}
use bw2c.Api.Requests.Sendable.{IsSendable-IsWireFrame}
use bw2c.Api.Requests.Valid.{build_chain_request-IsSendable}
use bw2c.Api.Calls.{new_context, context_code, transact_wait, with_seq_no, build_chain_call}
use bw2c.Api.Calls.Answered.{daemon_serves, wait_daemon}

-- The context once the response is there.
abbrev with_response : ReqCtx → ReqCtx
with_response r = record r { ready = true; rv = none }

response_taken :
    (f : Frame) (r : ReqCtx)
    → r.onframe ≡ build_chain none
    → r.ready ≡ false
    → frame_must_response f ≡ none
    → handle_frame f r ≡ some (false, with_response r)
unfolding handle_frame
response_taken f r o e v = build_chain_null_response f (is_final f) (record r { rv = none }) o e v

null_followed :
    (f : Frame) (r : ReqCtx)
    → r.onframe ≡ build_chain none
    → r.ready ≡ true
    → handle_frame f r ≡ none
unfolding handle_frame
null_followed f r o e = build_chain_null_later (some f) (is_final f) (record r { rv = none }) o e

serve_response :
    (f : Frame) (r r' : ReqCtx) (client : Client)
    → Others f client.reqs
    → r.seqno ≡ f.seqno
    → is_final f ≡ false
    → handle_frame f r ≡ some (false, r')
    → serve f (record client { reqs = r ∷ client.reqs })
      ≡ ok true (record client { reqs = r' ∷ client.reqs })
unfolding serve
serve_response f r r' client others e l h =
    rw (serve, dispatch-selects f [] client.reqs r r' false tt others e h, l) refl

serve-faults :
    (f : Frame) (r : ReqCtx) (client : Client)
    → r.seqno ≡ f.seqno
    → handle_frame f r ≡ none
    → serve f (record client { reqs = r ∷ client.reqs }) ≡ fault
unfolding serve dispatch
serve-faults f r client e h =
    rw (serve, dispatch, ap (λ n. n == f.seqno) e ∙ ==_refl f.seqno, h) refl

module _ (out : Sink) (is_lost : out.State → Bool) (n : ℕ) (all : SendsAll out)
    (memory : ReqCtx) where
  open out use {State}

  -- A connected client, no other request of which has the number that is drawn, calls `bw2_buildChain` with valid
  -- parameters, where the counter is below 2^31, the length of the request has at most ten digits, and `send`
  -- takes all that it is given. The daemon serves a response with this number that is accepted and not the last
  -- frame: the call returns 0, and at the next frame with the number the daemon follows the null pointer that
  -- the call has passed as the context of its callback.
  pub build_chain_call-faults :
      (p : BuildChainParams) (w : World out) (f₁ f₂ : Frame)
      → IsChainQuery p
      → w.client.curseqno < 2 ^ 31
      → frame_length (build_chain_request p w.client.curseqno) < 10 ^ 10
      → w.client.connected ≡ true
      → Others f₁ w.client.reqs
      → f₁.seqno ≡ w.client.curseqno
      → frame_must_response f₁ ≡ none
      → is_final f₁ ≡ false
      → f₂.seqno ≡ w.client.curseqno
      → (r : ReqCtx) × (w' : World out) × (build_chain_call out is_lost
            (suc (suc n))
            (daemon_serves out f₁)
            memory
            p
            w
          ≡ ok (none, r) w')
        × (serve f₂ w'.client ≡ fault)
  unfolding build_chain_call with_seq_no get_seq_no new_context reqctx_init transact_wait
  build_chain_call-faults p w f₁ f₂ valid num len c others e₁ v l e₂ =
      let k = w.client.curseqno in
      let drawn = (get_seq_no w.client).1 in
      let req = build_chain_request p k in
      let sendable = build_chain_request-IsSendable p k valid in
      let e = sendable.numbered in
      let (s', t, i) =
        transact-sends out is_lost n all req (new_context memory (build_chain none) none)
          (record w { client = drawn }) (IsSendable-IsWireFrame k req sendable num len) c in
      let r₀ : ReqCtx = record (new_context memory (build_chain none) none) { seqno = req.seqno } in
      let h₁ = response_taken f₁ r₀ refl refl v in
      let s₁ = serve_response f₁ r₀ (with_response r₀) drawn others (e ∙ sym e₁) l h₁ in
      let h₂ = null_followed f₂ (with_response r₀) refl refl in
      let w₁ : World out = record {
        output = s';
        client = record drawn { reqs = r₀ ∷ w.client.reqs };
      } in
      let w₂ : World out = record {
        output = s';
        client = record drawn { reqs = with_response r₀ ∷ w.client.reqs };
      } in
      let waits : transact_wait out is_lost (suc (suc n)) (daemon_serves out f₁) req
            (new_context memory (build_chain none) none) (record w { client = drawn })
          ≡ ok (none, with_response r₀) w₂ =
        rw (transact_wait, t) (wait_daemon out f₁ r₀ (with_response r₀) w₁ w₂.client h₁ s₁ refl) in
      (
        with_response r₀,
        w₂,
        ap context_code waits,
        serve-faults f₂ (with_response r₀) drawn (e ∙ sym e₂) h₂,
      )
