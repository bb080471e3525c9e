-- ===== src/Daemon/Dispatch/Live.antt =====
-- What the outstanding requests have in common, which the loop of `bw2_daemon` keeps.
use mathlib.Core.Path.{subst}
use bw2c.Base.{
  ◌⊎◌, ◌≡◌, refl, ◌∙◌, Bool, true, false, ◌||◌, none, some, List, [], ◌∷◌, ◌==◌, All, inl, inr,
  Bool-cases, >>=-eq-some, ==→eq,
}
use bw2c.Frame.{Frame}
use bw2c.Daemon.Request.{ReqCtx}
use bw2c.Api.Callbacks.Answers.{Answered, call_onframe-Answered}
use mathlib.Core.Option.{some-injective}
use mathlib.Core.Bool.{false≢true}
use bw2c.Daemon.Dispatch.{Dispatched, dispatch, handle_frame, is_final, keep_or_end}

-- A request in the list: until its response is there, the application has been given nothing; and one whose
-- response is there was accepted.
pub record IsLive (r : ReqCtx) : Type 0 where
  pub quiet : (r.ready ≡ true) ⊎ (r.delivered ≡ [])
  pub accepted : (r.ready ≡ false) ⊎ (r.rv ≡ none)

-- What leaves the list wakes up its caller.
abbrev pub IsEnded : Frame → ReqCtx → Type 0
IsEnded frame r = (r.ready ≡ true) × (r.seqno ≡ frame.seqno)

pub record IsServed (frame : Frame) (d : Dispatched) : Type 0 where
  pub live : All IsLive d.reqs
  pub ended : All (IsEnded frame) d.ended

kept_rv : {P : Type 0} → (false ≡ true) ⊎ P → P
kept_rv (inl e) = absurd (false≢true e)
kept_rv (inr p) = p

keep_or_end-IsServed :
    (frame : Frame) (r r' : ReqCtx) (stop final : Bool) (d : Dispatched)
    → r.seqno ≡ frame.seqno
    → Answered r stop r'
    → IsServed frame d
    → IsServed frame (keep_or_end (final || stop) r' d)
unfolding keep_or_end
keep_or_end-IsServed frame r r' stop true d e a s = record {
  live = s.live;
  ended = ((a.is_ready, a.same ∙ e), s.ended);
}
keep_or_end-IsServed frame r r' true false d e a s = record {
  live = s.live;
  ended = ((a.is_ready, a.same ∙ e), s.ended);
}
keep_or_end-IsServed frame r r' false false d e a s = record {
  live = (record { quiet = inl a.is_ready; accepted = inr (kept_rv a.kept) }, s.live);
  ended = s.ended;
}

handle_frame-Answered :
    (frame : Frame) (r : ReqCtx) (stop : Bool) (r' : ReqCtx)
    → handle_frame frame r ≡ some (stop, r')
    → (r₀ : ReqCtx) × (r₀.seqno ≡ r.seqno) × Answered r₀ stop r'
unfolding handle_frame
handle_frame-Answered frame r stop r' h = (
  record r { rv = none },
  refl,
  call_onframe-Answered frame (is_final frame) (record r { rv = none }) stop r' refl h,
)

-- Where every outstanding request is live, whatever their callbacks: when a frame has been dispatched the requests
-- that are left are live, too, and those that ended were waiting for its number and are ready.
pub dispatch-IsServed :
    (frame : Frame) (reqs : List ReqCtx) (d : Dispatched)
    → All IsLive reqs
    → dispatch frame reqs ≡ some d
    → IsServed frame d
unfolding dispatch
dispatch-IsServed frame [] d live h =
    subst (IsServed frame) (some-injective _ _ h) (record { live = tt; ended = tt })
dispatch-IsServed frame (r ∷ rs) d (l, ls) h = elim (Bool-cases (r.seqno == frame.seqno)) [
  | inl e ↦
      let (p, e₁, h₁) = >>=-eq-some (handle_frame frame r) _ (rw e at (h)) in
      let (d', e₂, h₂) = >>=-eq-some (dispatch frame rs) _ h₁ in
      let (r₀, e₀, a) = handle_frame-Answered frame r p.0 p.1 e₁ in
      subst (IsServed frame) (some-injective _ _ h₂) (
        keep_or_end-IsServed frame r₀ p.1 p.0 (is_final frame) d' (e₀ ∙ ==→eq _ _ e) a
          (dispatch-IsServed frame rs d' ls e₂))
  | inr e ↦
      let (d', e₂, h₂) = >>=-eq-some (dispatch frame rs) _ (rw e at (h)) in
      let s = dispatch-IsServed frame rs d' ls e₂ in
      subst (IsServed frame) (some-injective _ _ h₂)
        (record { live = (l, s.live); ended = s.ended })
]
