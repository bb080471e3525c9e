-- ===== src/Daemon/Stream.antt =====
-- A subscription over many frames: what its application is given.
use bw2c.Base.{
  ℕ, ◌≡◌, ◌≢◌, refl, Bool, true, false, Option, none, some, List, [], ◌∷◌, ◌++◌, ◌>>=◌, All,
}
use mathlib.Core.Path.{subst}
use bw2c.Frame.{Frame}
use bw2c.Daemon.Request.{Delivery, message, simple_message, ReqCtx, reqctx_signalled}
use bw2c.Api.Callbacks.{
  call_onframe, callback, simple_message_cb, simple_message_later, deliver, simplemsg_from_frame,
}
use bw2c.Daemon.Dispatch.{dispatch, handle_frame, is_final}
use bw2c.Daemon.Dispatch.Selects.{dispatch-selects}

-- The list of requests after some frames.
pub serve_frames : List Frame → List ReqCtx → Option (List ReqCtx)
serve_frames [] reqs = some reqs
serve_frames (f ∷ fs) reqs = dispatch f reqs >>= λ d. serve_frames fs d.reqs

-- The messages of some frames, the last first, on top of those before.
pub log : List Frame → List Delivery → List Delivery
log [] before = before
log (f ∷ fs) before = log fs (message (some (simplemsg_from_frame f)) false none ∷ before)

-- A frame in the middle of a subscription.
pub record IsMiddle (n : ℕ) (f : Frame) : Type 0 where
  pub own : n ≡ f.seqno
  pub not_last : is_final f ≡ false

abbrev pub subscriber : (List Delivery → Bool) → ℕ → List Delivery → ReqCtx → ReqCtx
subscriber app n ds r = record r {
  onframe = simple_message (some app);
  ready = true;
  rv = none;
  seqno = n;
  delivered = ds;
}

handle_frame-subscriber :
    (app : List Delivery → Bool) (n : ℕ) (ds : List Delivery) (r : ReqCtx) (f : Frame)
    → ((ds : List Delivery) → app ds ≡ false)
    → is_final f ≡ false
    → handle_frame f (subscriber app n ds r)
      ≡ some (false, subscriber app n (message (some (simplemsg_from_frame f)) false none ∷ ds) r)
unfolding handle_frame call_onframe callback simple_message_cb simple_message_later reqctx_signalled
    deliver
handle_frame-subscriber app n ds r f on h = rw (h, on) refl

-- A subscription that was accepted, whose application goes on listening and whose number no other
-- request waits for, stays in its place in the list over frames of this number none of which is
-- the last; it is given exactly their messages, in their order, while the other requests stay as
-- they are.
pub serve_frames-subscriber :
    (fs : List Frame) (l k : List ReqCtx) (app : List Delivery → Bool) (n : ℕ) (ds : List Delivery)
    (r : ReqCtx)
    → ((ds : List Delivery) → app ds ≡ false)
    → All (IsMiddle n) fs
    → All (λ x. x.seqno ≢ n) l
    → All (λ x. x.seqno ≢ n) k
    → serve_frames fs (l ++ subscriber app n ds r ∷ k)
      ≡ some (l ++ subscriber app n (log fs ds) r ∷ k)
unfolding serve_frames log
serve_frames-subscriber [] l k app n ds r on h hl hk = refl
serve_frames-subscriber (f ∷ fs) l k app n ds r on (h, hs) hl hk =
    let here = handle_frame-subscriber app n ds r f on h.not_last in
    let one =
      dispatch-selects f l k (subscriber app n ds r) _ false
        (subst (λ m. All (λ x. x.seqno ≢ m) l) h.own hl)
        (subst (λ m. All (λ x. x.seqno ≢ m) k) h.own hk) h.own here in
    rw (one, h.not_last) (serve_frames-subscriber fs l k app n _ r on hs hl hk)
