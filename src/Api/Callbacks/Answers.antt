-- ===== src/Api/Callbacks/Answers.antt =====
-- What the callbacks of api.c do to a request, whatever the frame: the laws that the daemon's loop rests on.
use bw2c.Base.{◌⊎◌, ◌≡◌, Bool, true, Option, none, some, arith}
use bw2c.Frame.{Frame}
use bw2c.Daemon.Request.{
  Application, Handler, simple_req, set_entity, subscribe, simple_message, list, create_dot,
  create_entity, create_dot_chain, build_chain, ReqCtx, reqctx_signal, reqctx_signalled,
}
use bw2c.Api.Callbacks.{
  callback, call_onframe, simple_req_cb, set_entity_cb, subscribe_cb, simple_message_cb, list_cb,
  create_dot_cb, create_entity_cb, create_dot_chain_cb, build_chain_cb, signal_last,
  signal_response, take_response, take_handle, deliver, simple_message_later, list_later,
  build_chain_later, deliver_if,
}
use bw2c.Objects.{Buffer}

-- A request that was answered: it is the same request, it is ready, it is kept only without an error,
-- and before it was ready nothing was delivered.
pub record Answered (r : ReqCtx) (stop : Bool) (r' : ReqCtx) : Type 0 where
  pub same : r'.seqno ≡ r.seqno
  pub is_ready : r'.ready ≡ true
  pub kept : (stop ≡ true) ⊎ (r'.rv ≡ none)
  pub quiet : (r.ready ≡ true) ⊎ (r'.delivered ≡ r.delivered)

abbrev Law : (ReqCtx → Option (Bool × ReqCtx)) → Type 0
Law cb =
    (r : ReqCtx) (stop : Bool) (r' : ReqCtx)
    → r.rv ≡ none
    → cb r ≡ some (stop, r')
    → Answered r stop r'

module _ (frame : Frame) (final : Bool) where
  simple_req-Law : Law (simple_req_cb (some frame) final)
  unfolding simple_req_cb signal_last take_response reqctx_signal
  simple_req-Law r stop r' z h = record {
    same = ground arith;
    is_ready = ground arith;
    kept = ground arith;
    quiet = ground arith;
  }

  set_entity-Law : (vkhash : Option Buffer) → Law (set_entity_cb vkhash (some frame) final)
  unfolding set_entity_cb signal_last reqctx_signal
  set_entity-Law vkhash r stop r' z h = record {
    same = ground arith;
    is_ready = ground arith;
    kept = ground arith;
    quiet = ground arith;
  }

  subscribe-Law : (app : Application) → Law (subscribe_cb app (some frame) final)
  unfolding subscribe_cb signal_response take_response reqctx_signal take_handle
  subscribe-Law app r stop r' z h = record {
    same = ground arith;
    is_ready = ground arith;
    kept = ground arith;
    quiet = ground arith;
  }

  simple_message-Law : (app : Application) → Law (simple_message_cb app (some frame) final)
  unfolding simple_message_cb signal_response take_response reqctx_signal reqctx_signalled
      simple_message_later deliver
  simple_message-Law app r stop r' z h = record {
    same = ground arith;
    is_ready = ground arith;
    kept = ground arith;
    quiet = ground arith;
  }

  list-Law : (app : Application) → Law (list_cb app (some frame) final)
  unfolding list_cb signal_response take_response reqctx_signal reqctx_signalled list_later deliver
  list-Law app r stop r' z h = record {
    same = ground arith;
    is_ready = ground arith;
    kept = ground arith;
    quiet = ground arith;
  }

  create_dot-Law :
      (dothash dot : Option Buffer) → Law (create_dot_cb dothash dot (some frame) final)
  unfolding create_dot_cb signal_last reqctx_signal
  create_dot-Law dothash dot r stop r' z h = record {
    same = ground arith;
    is_ready = ground arith;
    kept = ground arith;
    quiet = ground arith;
  }

  create_entity-Law :
      (vkhash vk : Option Buffer) → Law (create_entity_cb vkhash vk (some frame) final)
  unfolding create_entity_cb signal_last reqctx_signal
  create_entity-Law vkhash vk r stop r' z h = record {
    same = ground arith;
    is_ready = ground arith;
    kept = ground arith;
    quiet = ground arith;
  }

  create_dot_chain-Law : (hash : Option Buffer) → Law (create_dot_chain_cb hash (some frame) final)
  unfolding create_dot_chain_cb signal_last reqctx_signal
  create_dot_chain-Law hash r stop r' z h = record {
    same = ground arith;
    is_ready = ground arith;
    kept = ground arith;
    quiet = ground arith;
  }

  build_chain-Law : (ctx : Option Application) → Law (build_chain_cb ctx (some frame) final)
  unfolding build_chain_cb signal_response take_response reqctx_signal reqctx_signalled
      build_chain_later deliver_if deliver
  build_chain-Law ctx r stop r' z h = record {
    same = ground arith;
    is_ready = ground arith;
    kept = ground arith;
    quiet = ground arith;
  }

  callback-Law : (o : Handler) → Law (callback o (some frame) final)
  unfolding callback
  callback-Law simple_req = simple_req-Law
  callback-Law (set_entity vkhash) = set_entity-Law vkhash
  callback-Law (subscribe app) = subscribe-Law app
  callback-Law (simple_message app) = simple_message-Law app
  callback-Law (list app) = list-Law app
  callback-Law (create_dot dothash dot) = create_dot-Law dothash dot
  callback-Law (create_entity vkhash vk) = create_entity-Law vkhash vk
  callback-Law (create_dot_chain hash) = create_dot_chain-Law hash
  callback-Law (build_chain ctx) = build_chain-Law ctx

  -- Whatever callback a request has, when it is called with a frame and with `rv` 0, as the daemon
  -- calls it, and answers it: the request stays the same one and is ready; it is kept only if
  -- there was no error; and unless the response was there before, nothing is delivered.
  pub call_onframe-Answered :
      (r : ReqCtx) (stop : Bool) (r' : ReqCtx)
      → r.rv ≡ none
      → call_onframe (some frame) final r ≡ some (stop, r')
      → Answered r stop r'
  unfolding call_onframe
  call_onframe-Answered r stop r' = callback-Law r.onframe r stop r'
