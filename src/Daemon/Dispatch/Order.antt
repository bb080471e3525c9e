-- ===== src/Daemon/Dispatch/Order.antt =====
-- The order of the requests in the list is of no account to what the daemon does with a frame.
use mathlib.Core.HLevel.{×_prop}
use mathlib.Core.List.{Perm, Perm-prop, Permᴰ}
use mathlib.Core.List.Perm
use mathlib.Core.Logic.{∥∥₁_elim}
use native.Mathlib.Bridge.{le_prop}
use bw2c.Base.{
  ◌<◌, ◌≡◌, Bool, true, false, ◌||◌, Option, none, some, List, [], ◌∷◌, ◌==◌, if◌then◌else◌, arith,
  ◌>>=◌,
}
use bw2c.Frame.{Frame}
use bw2c.Daemon.Request.{ReqCtx}
use bw2c.Daemon.Dispatch.{Dispatched, dispatch, handle_frame, is_final, keep_or_end}

-- The same requests are left and the same have ended, in any order; or both runs have undefined behaviour.
abbrev pub AreSame : Option Dispatched → Option Dispatched → Type 0
AreSame none none = Unit
AreSame (some d) (some d') = Perm d.reqs d'.reqs × Perm d.ended d'.ended
AreSame _ _ = 0 < 0

AreSame-refl : (o : Option Dispatched) → AreSame o o
AreSame-refl none = tt
AreSame-refl (some d) = (Perm.refl d.reqs, Perm.refl d.ended)

AreSame-trans : (o o' o'' : Option Dispatched) → AreSame o o' → AreSame o' o'' → AreSame o o''
AreSame-trans none none none h k = tt
AreSame-trans none none (some d) h k = absurd (omega (arith, k))
AreSame-trans none (some d) o h k = absurd (omega (arith, h))
AreSame-trans (some d) none o h k = absurd (omega (arith, h))
AreSame-trans (some d) (some d') none h k = absurd (omega (arith, k))
AreSame-trans (some d) (some d') (some d'') (h, h') (k, k') = (Perm.trans h k, Perm.trans h' k')

-- What becomes of one request; `none` is undefined behaviour.
abbrev outcome_of : Frame → ReqCtx → Option (Bool × ReqCtx)
outcome_of frame curr =
    if curr.seqno == frame.seqno
    then (do (stop, curr') ← handle_frame frame curr; some (is_final frame || stop, curr'))
    else some (false, curr)

abbrev put_outcome : Option (Bool × ReqCtx) → Option Dispatched → Option Dispatched
unfolding keep_or_end
put_outcome none o = none
put_outcome (some (b, r)) none = none
put_outcome (some (b, r)) (some d) = some (keep_or_end b r d)

dispatch-cons :
    (frame : Frame) (curr : ReqCtx) (next : List ReqCtx)
    → dispatch frame (curr ∷ next) ≡ put_outcome (outcome_of frame curr) (dispatch frame next)
unfolding dispatch put_outcome keep_or_end
dispatch-cons frame curr next = ground arith

put_outcome-AreSame :
    (c : Option (Bool × ReqCtx)) (o o' : Option Dispatched)
    → AreSame o o'
    → AreSame (put_outcome c o) (put_outcome c o')
unfolding put_outcome keep_or_end
put_outcome-AreSame none o o' h = tt
put_outcome-AreSame (some (b, r)) none none h = tt
put_outcome-AreSame (some (b, r)) none (some d) h = absurd (omega (arith, h))
put_outcome-AreSame (some (b, r)) (some d) none h = absurd (omega (arith, h))
put_outcome-AreSame (some (true, r)) (some d) (some d') (h, h') = (h, Perm.cons r h')
put_outcome-AreSame (some (false, r)) (some d) (some d') (h, h') = (Perm.cons r h, h')

-- Two requests one after the other, in either order.
put_outcome_swap :
    (c c' : Option (Bool × ReqCtx)) (o : Option Dispatched)
    → AreSame (put_outcome c (put_outcome c' o)) (put_outcome c' (put_outcome c o))
unfolding put_outcome keep_or_end
put_outcome_swap none none o = tt
put_outcome_swap none (some (b, r)) o = tt
put_outcome_swap (some (b, r)) none o = tt
put_outcome_swap (some (b, r)) (some (b', r')) none = tt
put_outcome_swap (some (true, r)) (some (true, r')) (some d) =
    (Perm.refl d.reqs, Perm.swap r' r d.ended)
put_outcome_swap (some (true, r)) (some (false, r')) (some d) =
    (Perm.refl (r' ∷ d.reqs), Perm.refl (r ∷ d.ended))
put_outcome_swap (some (false, r)) (some (true, r')) (some d) =
    (Perm.refl (r ∷ d.reqs), Perm.refl (r' ∷ d.ended))
put_outcome_swap (some (false, r)) (some (false, r')) (some d) =
    (Perm.swap r' r d.reqs, Perm.refl d.ended)

dispatch-Permᴰ :
    (frame : Frame) (l l' : List ReqCtx)
    → Permᴰ l l'
    → AreSame (dispatch frame l) (dispatch frame l')
dispatch-Permᴰ frame [] [] Permᴰ.nil = AreSame-refl (dispatch frame [])
dispatch-Permᴰ frame (r ∷ l) (r' ∷ l') (Permᴰ.cons e p) =
    rw (dispatch-cons frame r l, dispatch-cons frame r' l', e)
      (put_outcome-AreSame (outcome_of frame r') _ _ (dispatch-Permᴰ frame l l' p))
dispatch-Permᴰ frame _ _ (Permᴰ.swap {a = r} {b = q} {a' = q'} {b' = r'} {l = l} e e') =
    rw
      (
        dispatch-cons frame r (q ∷ l),
        dispatch-cons frame q l,
        dispatch-cons frame q' (r' ∷ l),
        dispatch-cons frame r' l,
        e,
        e',
      )
      (put_outcome_swap (outcome_of frame r') (outcome_of frame q') (dispatch frame l))
dispatch-Permᴰ frame l l'' (Permᴰ.trans {l₂ = l'} p q) =
    AreSame-trans (dispatch frame l) (dispatch frame l') (dispatch frame l'')
      (dispatch-Permᴰ frame l l' p) (dispatch-Permᴰ frame l' l'' q)

AreSame-prop : (o o' : Option Dispatched) → IsProp (AreSame o o')
AreSame-prop none none = hlevel
AreSame-prop none (some d) = le_prop
AreSame-prop (some d) none = le_prop
AreSame-prop (some d) (some d') = ×_prop Perm-prop Perm-prop

-- Whatever the callbacks do: if the same requests are outstanding in another order, then either both runs of the loop
-- follow a null pointer, or the same requests are left, the same have ended, and each is in the same state.
pub dispatch-Perm :
    (frame : Frame) (l l' : List ReqCtx)
    → Perm l l'
    → AreSame (dispatch frame l) (dispatch frame l')
dispatch-Perm frame l l' p =
    ∥∥₁_elim p (AreSame-prop (dispatch frame l) (dispatch frame l'))
      (λ d. dispatch-Permᴰ frame l l' d)
