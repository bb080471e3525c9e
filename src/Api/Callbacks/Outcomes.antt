-- ===== src/Api/Callbacks/Outcomes.antt =====
-- What single callbacks of api.c do: those of the requests of one frame, that of `bw2_buildChain`, and the making of
-- a message for the application.
use bw2c.Run.{missing_header}
use bw2c.Base.{◌⊎◌, inl, inr, ap, ◌↔◌, ◌≡◌, refl, Bool, true, false, Option, none, some, codes}
use bw2c.Frame.{Frame, Header, get_first_header, frame_must_response}
use bw2c.Daemon.Request.{
  Handler, simple_req, set_entity, subscribe, simple_message, list, create_dot, create_entity,
  create_dot_chain, build_chain, SimpleMessage, ReqCtx, reqctx_signal, reqctx_signalled,
}
use bw2c.Api.Callbacks.{
  callback, call_onframe, simple_req_cb, set_entity_cb, create_dot_cb, create_entity_cb,
  create_dot_chain_cb, build_chain_cb, signal_last, signal_response, take_response,
  simplemsg_from_frame, simplemsg, header_slice,
}

-- The callbacks of the requests that are answered by one frame.
abbrev pub IsSingle : Handler → Type 0
IsSingle simple_req = Unit
IsSingle (set_entity vkhash) = Unit
IsSingle (create_dot dothash dot) = Unit
IsSingle (create_entity vkhash vk) = Unit
IsSingle (create_dot_chain hash) = Unit
IsSingle _ = ⊥

-- A request that is answered by one frame ends with it: the waiting caller is woken up and gets the verdict
-- of `bw2_frameMustResponse`, and the application is not called.
pub call_onframe-IsSingle :
    (o : Handler)
    → IsSingle o
    → (frame : Frame) (final : Bool) (r : ReqCtx)
    → (o' : Handler) × (callback o (some frame) final r
        ≡ some (true, record r { onframe = o'; ready = true; rv = frame_must_response frame }))
unfolding callback simple_req_cb set_entity_cb create_dot_cb create_entity_cb create_dot_chain_cb
    signal_last take_response reqctx_signal
call_onframe-IsSingle simple_req h frame final r = (r.onframe, refl)
call_onframe-IsSingle (set_entity vkhash) h frame final r = (_, refl)
call_onframe-IsSingle (create_dot dothash dot) h frame final r = (_, refl)
call_onframe-IsSingle (create_entity vkhash vk) h frame final r = (_, refl)
call_onframe-IsSingle (create_dot_chain hash) h frame final r = (_, refl)
call_onframe-IsSingle (subscribe smctx) h frame final r = elim h [ ]
call_onframe-IsSingle (simple_message smctx) h frame final r = elim h [ ]
call_onframe-IsSingle (list lctx) h frame final r = elim h [ ]
call_onframe-IsSingle (build_chain scctx) h frame final r = elim h [ ]

-- What a message says of the two headers it needs.
abbrev pub IsMarked : SimpleMessage → Option Header → Option Header → Type 0
IsMarked m fromhdr urihdr =
    ((m.error ≡ some missing_header)
      ↔ ((f : Header) × (u : Header) × (fromhdr ≡ some f) × (urihdr ≡ some u)))
    × ((m.error ≡ none) ↔ ((fromhdr ≡ none) ⊎ (urihdr ≡ none)))
    × ((f u : Header)
        → fromhdr ≡ some f
        → urihdr ≡ some u
        → (m.sender ≡ some (f.value, f.len)) × (m.uri ≡ some (u.value, u.len)))

simplemsg-IsMarked :
    (frame : Frame) (fromhdr urihdr : Option Header)
    → IsMarked (simplemsg frame fromhdr urihdr) fromhdr urihdr
unfolding simplemsg header_slice
simplemsg-IsMarked frame (some f) (some u) = (
  (λ _. (f, u, refl, refl), λ _. refl),
  (λ e. cc, λ h. elim h [ inl e ↦ cc | inr e ↦ cc ]),
  λ f' u' e e'. (ap header_slice e, ap header_slice e'),
)
simplemsg-IsMarked frame (some f) none =
    ((λ e. cc, λ (f, u, e, e'). cc), (λ _. inr refl, λ _. refl), λ f' u' e e'. cc)
simplemsg-IsMarked frame none u =
    ((λ e. cc, λ (f, u, e, e'). cc), (λ _. inl refl, λ _. refl), λ f' u' e e'. cc)

-- A message is marked as one that misses a header exactly if its frame has both of the headers "from" and "uri",
-- which are its sender and its address then, and it is without an error exactly if one of them is missing.
pub simplemsg_from_frame-IsMarked :
    (frame : Frame)
    → IsMarked
        (simplemsg_from_frame frame)
        (get_first_header frame (codes "from"))
        (get_first_header frame (codes "uri"))
unfolding simplemsg_from_frame
simplemsg_from_frame-IsMarked frame =
    simplemsg-IsMarked frame (get_first_header frame (codes "from"))
      (get_first_header frame (codes "uri"))

-- The callback of `bw2_buildChain` with the null pointer that it is given: it takes the response.
pub build_chain_null_response :
    (frame : Frame) (final : Bool) (r : ReqCtx)
    → r.onframe ≡ build_chain none
    → r.ready ≡ false
    → frame_must_response frame ≡ none
    → call_onframe (some frame) final r ≡ some (false, record r { ready = true; rv = none })
unfolding call_onframe callback build_chain_cb reqctx_signalled signal_response take_response
    reqctx_signal
build_chain_null_response frame final r o e v = rw (call_onframe, o, e, v) refl

-- Behind the response it follows the null pointer.
pub build_chain_null_later :
    (frame : Option Frame) (final : Bool) (r : ReqCtx)
    → r.onframe ≡ build_chain none
    → r.ready ≡ true
    → call_onframe frame final r ≡ none
unfolding call_onframe callback build_chain_cb reqctx_signalled
build_chain_null_later frame final r o e = rw (call_onframe, o, e) refl
