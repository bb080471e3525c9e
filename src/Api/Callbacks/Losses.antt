-- ===== src/Api/Callbacks/Losses.antt =====
-- What the callbacks of api.c do to a request when they are called without a frame, because the connection was lost.
use bw2c.Base.{◌⊎◌, ◌≡◌, Bool, true, Option, none, some, arith}
use bw2c.Run.{connection_lost}
use bw2c.Daemon.Request.{
  Application, Handler, simple_req, set_entity, subscribe, simple_message, list, create_dot,
  create_entity, create_dot_chain, build_chain, ReqCtx, reqctx_signal, reqctx_signalled,
}
use bw2c.Api.Callbacks.{
  callback, call_onframe, simple_req_cb, set_entity_cb, subscribe_cb, simple_message_cb, list_cb,
  create_dot_cb, create_entity_cb, create_dot_chain_cb, build_chain_cb, signal_last,
  signal_response, take_response, take_handle, deliver_loss, simple_message_later, list_later,
  build_chain_later,
}

-- A request that was told of the loss: it is the same request, it is ready, its code says so, it is to end, and before
-- it was ready nothing was delivered.
pub record IsTold (r : ReqCtx) (stop : Bool) (r' : ReqCtx) : Type 0 where
  pub same : r'.seqno ≡ r.seqno
  pub is_ready : r'.ready ≡ true
  pub code : r'.rv ≡ some connection_lost
  pub stops : stop ≡ true
  pub quiet : (r.ready ≡ true) ⊎ (r'.delivered ≡ r.delivered)

abbrev Law : (ReqCtx → Option (Bool × ReqCtx)) → Type 0
Law cb =
    (r : ReqCtx) (stop : Bool) (r' : ReqCtx)
    → r.rv ≡ some connection_lost
    → cb r ≡ some (stop, r')
    → IsTold r stop r'

module _ (final : Bool) where
  last-Law : Law signal_last
  unfolding signal_last reqctx_signal
  last-Law r stop r' e h = record {
    same = ground arith;
    is_ready = ground arith;
    code = ground arith;
    stops = ground arith;
    quiet = ground arith;
  }

  simple_req-Law : Law (simple_req_cb none final)
  unfolding simple_req_cb take_response
  simple_req-Law = last-Law

  subscribe-Law : (app : Application) → Law (subscribe_cb app none final)
  unfolding subscribe_cb signal_response take_response reqctx_signal take_handle
  subscribe-Law app r stop r' e h = record {
    same = ground arith;
    is_ready = ground arith;
    code = ground arith;
    stops = ground arith;
    quiet = ground arith;
  }

  simple_message-Law : (app : Application) → Law (simple_message_cb app none final)
  unfolding simple_message_cb signal_response take_response reqctx_signal reqctx_signalled
      simple_message_later deliver_loss
  simple_message-Law app r stop r' e h = record {
    same = ground arith;
    is_ready = ground arith;
    code = ground arith;
    stops = ground arith;
    quiet = ground arith;
  }

  list-Law : (app : Application) → Law (list_cb app none final)
  unfolding list_cb signal_response take_response reqctx_signal reqctx_signalled list_later
      deliver_loss
  list-Law app r stop r' e h = record {
    same = ground arith;
    is_ready = ground arith;
    code = ground arith;
    stops = ground arith;
    quiet = ground arith;
  }

  build_chain-Law : (ctx : Option Application) → Law (build_chain_cb ctx none final)
  unfolding build_chain_cb signal_response take_response reqctx_signal reqctx_signalled
      build_chain_later deliver_loss
  build_chain-Law ctx r stop r' e h = record {
    same = ground arith;
    is_ready = ground arith;
    code = ground arith;
    stops = ground arith;
    quiet = ground arith;
  }

  callback-Law : (o : Handler) → Law (callback o none final)
  unfolding callback set_entity_cb create_dot_cb create_entity_cb create_dot_chain_cb
  callback-Law simple_req = simple_req-Law
  callback-Law (set_entity vkhash) = last-Law
  callback-Law (subscribe app) = subscribe-Law app
  callback-Law (simple_message app) = simple_message-Law app
  callback-Law (list app) = list-Law app
  callback-Law (create_dot dothash dot) = last-Law
  callback-Law (create_entity vkhash vk) = last-Law
  callback-Law (create_dot_chain hash) = last-Law
  callback-Law (build_chain ctx) = build_chain-Law ctx

  pub call_onframe-IsTold :
      (r : ReqCtx) (stop : Bool) (r' : ReqCtx)
      → r.rv ≡ some connection_lost
      → call_onframe none final r ≡ some (stop, r')
      → IsTold r stop r'
  unfolding call_onframe
  call_onframe-IsTold r stop r' = callback-Law r.onframe r stop r'
