-- ===== src/Api/Callbacks.antt =====
-- The callbacks of api.c, which the daemon calls with each frame for a request. A frame that is `none`
-- is NULL: the connection was lost. The result is the Boolean that a callback returns, which is true
-- to end the request, with the context afterwards; `none` is a null pointer that is followed.
pub mod Answers
pub mod Losses
pub mod Outcomes
use bw2c.Base.{
  ℕ, Bool, true, false, not, Option, none, some, List, [], ◌∷◌, if◌then◌else◌, Bytes, codes,
}
use bw2c.Frame.{Frame, Header, PayloadObj, get_first_header, frame_must_response}
use bw2c.Objects.{
  Buffer, subscription_handle_set, vk_set, vk_hash_set, dot_set, dot_hash_set, dot_chain_hash_set,
}
use bw2c.Run.{Error, missing_header}
use bw2c.Daemon.Request.{
  Slice, SimpleMessage, SimpleChain, Delivery, message, child, chain, Application, Handler,
  simple_req, set_entity, subscribe, simple_message, list, create_dot, create_entity,
  create_dot_chain, build_chain, ReqCtx, reqctx_signal, reqctx_signalled,
}

abbrev pub Callback : Type 0
Callback = Option Frame → (final : Bool) → ReqCtx → Option (Bool × ReqCtx)

-- Whether a code is 0.
abbrev pub is_error : Option Error → Bool
is_error none = false
is_error (some _) = true

-- The answer of a callback that has taken the response: it ends the request if that is an error.
pub signal_response : ReqCtx → Option (Bool × ReqCtx)
unfolding reqctx_signal
signal_response rctx = some (is_error rctx.rv, reqctx_signal rctx)

unfoldable pub take_response : Option Frame → ReqCtx → ReqCtx
take_response none rctx = rctx
take_response (some frame) rctx = record rctx { rv = frame_must_response frame }

-- The answer of a callback for a request of one frame.
unfoldable pub signal_last : ReqCtx → Option (Bool × ReqCtx)
unfolding reqctx_signal
signal_last rctx = some (true, reqctx_signal rctx)

-- A buffer that is filled from a header if the application passed one and the header is there.
unfoldable pub set_from_header :
    (Bytes → ℕ → Buffer) → Option Buffer → Option Header → Option Buffer
set_from_header set none hdr = none
set_from_header set (some b) none = some b
set_from_header set (some b) (some hdr) = some (set hdr.value hdr.len)

unfoldable pub set_from_po : (Bytes → ℕ → Buffer) → Option Buffer → List PayloadObj → Option Buffer
set_from_po set none pos = none
set_from_po set (some b) [] = some b
set_from_po set (some b) (po ∷ _) = some (set po.po po.polen)

unfoldable pub simple_req_cb : Callback
simple_req_cb frame final rctx = signal_last (take_response frame rctx)

pub set_entity_cb : Option Buffer → Callback
set_entity_cb vkhash none final rctx = signal_last rctx
set_entity_cb vkhash (some frame) final rctx = signal_last (record rctx {
  onframe = set_entity (set_from_header vk_hash_set vkhash (get_first_header frame (codes "vk")));
  rv = frame_must_response frame;
})

unfoldable pub header_slice : Option Header → Slice
header_slice none = none
header_slice (some hdr) = some (hdr.value, hdr.len)

simplemsg : Frame → (fromhdr : Option Header) → (urihdr : Option Header) → SimpleMessage
simplemsg frame (some fromhdr) (some urihdr) = record {
  sender = some (fromhdr.value, fromhdr.len);
  uri = some (urihdr.value, urihdr.len);
  pos = frame.pos;
  ros = frame.ros;
  error = some missing_header;
}
simplemsg frame _ _ = record {
  sender = none;
  uri = none;
  pos = frame.pos;
  ros = frame.ros;
  error = none;
}

pub simplemsg_from_frame : Frame → SimpleMessage
unfolding simplemsg
simplemsg_from_frame frame =
    simplemsg frame (get_first_header frame (codes "from")) (get_first_header frame (codes "uri"))

-- One call of the function of the application, and its answer.
unfoldable pub deliver : (List Delivery → Bool) → Delivery → ReqCtx → Option (Bool × ReqCtx)
deliver on_message d rctx =
    let delivered = d ∷ rctx.delivered in
    some (on_message delivered, record rctx { delivered = delivered })

-- A lost connection is reported, and the request ends whatever the application answers.
unfoldable pub deliver_loss : Application → Delivery → ReqCtx → Option (Bool × ReqCtx)
deliver_loss none d rctx = some (true, rctx)
deliver_loss (some on_message) d rctx = some (true, record rctx { delivered = d ∷ rctx.delivered })

unfoldable pub simple_message_later : Application → Callback
simple_message_later smctx none final rctx = deliver_loss smctx (message none final rctx.rv) rctx
simple_message_later none (some frame) final rctx = some (false, rctx)
simple_message_later (some on_message) (some frame) final rctx =
    deliver on_message (message (some (simplemsg_from_frame frame)) final none) rctx

unfoldable pub simple_message_cb : Application → Callback
unfolding simple_message_later
simple_message_cb smctx frame final rctx =
    if reqctx_signalled rctx
    then simple_message_later smctx frame final rctx
    else signal_response (take_response frame rctx)

-- The handle of the subscription. Without a frame `rv` is an error; were it 0, the null pointer would
-- be followed.
take_handle : Option Frame → (handle : Option Buffer) → ReqCtx → Option ReqCtx
take_handle frame none rctx = some rctx
take_handle none (some b) rctx = if is_error rctx.rv then some rctx else none
take_handle (some frame) (some b) rctx =
    if is_error rctx.rv then some rctx else elim (get_first_header frame (codes "handle")) [
      | none ↦ some (record rctx { rv = some missing_header })
      | some handlehdr ↦
          some
            (record rctx { handle = some (subscription_handle_set handlehdr.value handlehdr.len) })
    ]

-- The frames that follow go to `_bw2_simpleMessage_cb`.
pub subscribe_cb : Application → Callback
unfolding take_handle
subscribe_cb smctx frame final rctx =
    let rctx = take_response frame rctx in
    elim (take_handle frame rctx.handle rctx) [
      | none ↦ none
      | some rctx ↦ signal_response (record rctx { onframe = simple_message smctx })
    ]

unfoldable pub list_later : Application → Callback
list_later lctx none final rctx = deliver_loss lctx (child none final rctx.rv) rctx
list_later none (some frame) final rctx = some (false, rctx)
list_later (some on_message) (some frame) final rctx =
    deliver on_message (child (header_slice (get_first_header frame (codes "child"))) final none)
      rctx

unfoldable pub list_cb : Application → Callback
unfolding list_later
list_cb lctx frame final rctx =
    if reqctx_signalled rctx
    then list_later lctx frame final rctx
    else signal_response (take_response frame rctx)

unfoldable pub create_dot_cb : (dothash dot : Option Buffer) → Callback
create_dot_cb dothash dot none final rctx = signal_last rctx
create_dot_cb dothash dot (some frame) final rctx = signal_last (record rctx {
  onframe =
      create_dot (set_from_header dot_hash_set dothash (get_first_header frame (codes "hash")))
        (set_from_po dot_set dot frame.pos);
  rv = frame_must_response frame;
})

pub create_entity_cb : (vkhash vk : Option Buffer) → Callback
create_entity_cb vkhash vk none final rctx = signal_last rctx
create_entity_cb vkhash vk (some frame) final rctx = signal_last (record rctx {
  onframe =
      create_entity (set_from_header vk_hash_set vkhash (get_first_header frame (codes "vk")))
        (set_from_po vk_set vk frame.pos);
  rv = frame_must_response frame;
})

pub create_dot_chain_cb : Option Buffer → Callback
create_dot_chain_cb dotchainhash none final rctx = signal_last rctx
create_dot_chain_cb dotchainhash (some frame) final rctx = signal_last (record rctx {
  onframe =
      create_dot_chain
        (set_from_header dot_chain_hash_set dotchainhash (get_first_header frame (codes "hash")));
  rv = frame_must_response frame;
})

first_po_slice : List PayloadObj → Slice
first_po_slice [] = none
first_po_slice (po ∷ _) = some (po.po, po.polen)

-- What is delivered for a frame: a chain, or the end without a chain.
chain_delivery : Frame → (final : Bool) → (hashhdr : Option Header) → Option Delivery
chain_delivery frame final (some hashhdr) = some (
    chain
      (some (record {
        hash = some (hashhdr.value, hashhdr.len);
        permissions = header_slice (get_first_header frame (codes "permissions"));
        to = header_slice (get_first_header frame (codes "to"));
        uri = header_slice (get_first_header frame (codes "uri"));
        content = first_po_slice frame.pos;
      }))
      final none)
chain_delivery frame final none = if final then some (chain none final none) else none

deliver_if : (List Delivery → Bool) → Option Delivery → ReqCtx → Option (Bool × ReqCtx)
deliver_if on_chain none rctx = some (false, rctx)
deliver_if on_chain (some d) rctx = deliver on_chain d rctx

build_chain_later : Application → Callback
unfolding chain_delivery
build_chain_later scctx none final rctx = deliver_loss scctx (chain none final rctx.rv) rctx
build_chain_later none (some frame) final rctx = some (false, rctx)
build_chain_later (some on_chain) (some frame) final rctx =
    deliver_if on_chain (chain_delivery frame final (get_first_header frame (codes "hash"))) rctx

-- The context `ctx` is followed as soon as the response is there; `none` is NULL.
pub build_chain_cb : Option Application → Callback
unfolding build_chain_later deliver_if chain_delivery first_po_slice
build_chain_cb none frame final rctx =
    if reqctx_signalled rctx then none else signal_response (take_response frame rctx)
build_chain_cb (some scctx) frame final rctx =
    if reqctx_signalled rctx
    then build_chain_later scctx frame final rctx
    else signal_response (take_response frame rctx)

-- The functions that `onframe` points to.
unfoldable pub callback : Handler → Callback
callback simple_req = simple_req_cb
callback (set_entity vkhash) = set_entity_cb vkhash
callback (subscribe smctx) = subscribe_cb smctx
callback (simple_message smctx) = simple_message_cb smctx
callback (list lctx) = list_cb lctx
callback (create_dot dothash dot) = create_dot_cb dothash dot
callback (create_entity vkhash vk) = create_entity_cb vkhash vk
callback (create_dot_chain dotchainhash) = create_dot_chain_cb dotchainhash
callback (build_chain scctx) = build_chain_cb scctx

-- The call through the function pointer.
unfoldable pub call_onframe : Callback
unfolding callback
call_onframe frame final rctx = callback rctx.onframe frame final rctx
