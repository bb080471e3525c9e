-- ===== src/Daemon/Dispatch/Selects.antt =====
-- Which requests the loop of `bw2_daemon` hands a frame to.
use bw2c.Base.{
  ◌≡◌, ◌≢◌, refl, ap, ◌∙◌, Bool, ◌||◌, some, List, [], ◌∷◌, ◌++◌, ◌==◌, ==_refl, ne→==,
  if◌then◌else◌, All, arith,
}
use bw2c.Frame.{Frame}
use bw2c.Daemon.Request.{ReqCtx}
use bw2c.Daemon.Dispatch.{dispatch, handle_frame, is_final, keep_or_end}

-- The requests that wait for another number.
abbrev pub Others : Frame → List ReqCtx → Type 0
Others frame = All λ r. r.seqno ≢ frame.seqno

dispatch-Others :
    (frame : Frame) (reqs : List ReqCtx)
    → Others frame reqs
    → dispatch frame reqs ≡ some (record { reqs = reqs; ended = [] })
unfolding dispatch keep_or_end
dispatch-Others frame [] h = refl
dispatch-Others frame (r ∷ rs) (h, hs) =
    rw (ne→== r.seqno frame.seqno h, dispatch-Others frame rs hs) refl

-- Where one request waits for the number of a frame and its callback returns, the frame goes to
-- this request alone: it ends if the frame is the last one or the callback says so, else it keeps
-- its place; the others stay as they are.
pub dispatch-selects :
    (frame : Frame) (l k : List ReqCtx) (r r' : ReqCtx) (stop : Bool)
    → Others frame l
    → Others frame k
    → r.seqno ≡ frame.seqno
    → handle_frame frame r ≡ some (stop, r')
    → dispatch frame (l ++ r ∷ k)
      ≡ some (
          if is_final frame || stop
          then record { reqs = l ++ k; ended = r' ∷ [] }
          else record { reqs = l ++ r' ∷ k; ended = [] })
unfolding dispatch keep_or_end
dispatch-selects frame [] k r r' stop hl hk e h =
    rw (ap (λ n. n == frame.seqno) e ∙ ==_refl frame.seqno, h, dispatch-Others frame k hk)
      (ground arith)
dispatch-selects frame (x ∷ l) k r r' stop (hx, hl) hk e h =
    rw (ne→== x.seqno frame.seqno hx, dispatch-selects frame l k r r' stop hl hk e h) (ground arith)
