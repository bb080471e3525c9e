-- ===== src/Daemon/Steps/Sound.antt =====
-- What holds of the client in every order of its threads' steps.
use bw2c.Base.{
  ℕ, ◌⊎◌, ◌^◌, ◌<◌, ◌≡◌, ◌≢◌, refl, ap, sym, Bool, true, false, none, some, List, [], ◌∷◌, All,
  All-append, Bool-cases, Option-cases, inl, inr, arith,
}
use mathlib.Core.Path.{subst}
use bw2c.Frame.{Frame}
use bw2c.Run.{Run, ok, connection_lost}
use bw2c.Daemon.Request.{ReqCtx, Handler, reqctx_init}
use bw2c.Daemon.Dispatch.{dispatch}
use bw2c.Daemon.Dispatch.Live.{IsLive, IsEnded, dispatch-IsServed}
use bw2c.Daemon.Client.{Client, client_init, get_seq_no, disconnect, enqueue, drop}
use bw2c.Daemon.Loop.{serve}
use bw2c.Api.Callbacks.{call_onframe}
use bw2c.Api.Callbacks.Losses.{call_onframe-IsTold}
use bw2c.Daemon.Steps.{
  Phase, reading, releasing, gone, System, Step, draws, enqueues, disconnects, drops, marks, serves,
  loses, releases, leaves, IsReachable, start, next,
}

-- The request that is being released: it is as a live one, or it was told of the loss.
pub record IsReleased (r : ReqCtx) : Type 0 where
  pub quiet : (r.ready ≡ true) ⊎ (r.delivered ≡ [])
  pub settled : (r.ready ≡ false) ⊎ (r.rv ≡ none) ⊎ (r.rv ≡ some connection_lost)

-- The requests in the list, by what the daemon does: it releases the first one.
abbrev pub AreSound : Phase → List ReqCtx → Type 0
AreSound releasing [] = Unit
AreSound releasing (curr ∷ rest) = IsReleased curr × All IsLive rest
AreSound reading reqs = All IsLive reqs
AreSound gone reqs = All IsLive reqs

pub record IsSound (s : System) : Type 0 where
  pub seqno_nonneg : s.client.curseqno < 2 ^ 31
  pub requests : AreSound s.daemon s.client.reqs
  pub woken : All (λ r. r.ready ≡ true) s.client.ended
  pub open_once : (s.client.connected ≡ false) ⊎ (s.client.closed ≡ 0)
  pub unmarked : (s.marked ≡ true) ⊎ ((s.client.connected ≡ false) × (s.client.closed ≡ 0))

-- A request that is new.
reqctx_init-IsLive :
    (r : ReqCtx) (h : Handler) (n : ℕ)
    → r.delivered ≡ []
    → IsLive (record (reqctx_init r h) { seqno = n })
unfolding reqctx_init
reqctx_init-IsLive r h n e = record { quiet = inr e; accepted = inl refl }

AreSound-cons :
    (d : Phase) (r : ReqCtx) (rs : List ReqCtx)
    → d ≢ releasing
    → IsLive r
    → AreSound d rs
    → AreSound d (r ∷ rs)
AreSound-cons reading r rs n l h = (l, h)
AreSound-cons releasing r rs n l h = absurd (n refl)
AreSound-cons gone r rs n l h = (l, h)

AreSound-releasing : (rs : List ReqCtx) → All IsLive rs → AreSound releasing rs
AreSound-releasing [] h = tt
AreSound-releasing (r ∷ rs) (l, ls) = (
  record { quiet = l.quiet; settled = elim l.accepted [ inl e ↦ inl e | inr e ↦ inr (inl e) ] },
  ls,
)

AreSound-next : (r : ReqCtx) (rs : List ReqCtx) → AreSound releasing (r ∷ rs) → All IsLive rs
AreSound-next r rs (h, hs) = hs

enqueue-IsSound :
    (s : System) (frame : Frame) (r : ReqCtx)
    → s.daemon ≢ releasing
    → IsSound s
    → IsLive (record r { seqno = frame.seqno })
    → IsSound (record s { client = (enqueue frame r s.client).1 })
unfolding enqueue
enqueue-IsSound s frame r n h l = elim (Bool-cases s.client.connected) [
  | inl e ↦ rw e (record {
    seqno_nonneg = h.seqno_nonneg;
    requests = AreSound-cons s.daemon _ s.client.reqs n l h.requests;
    woken = h.woken;
    open_once = rw e at (h.open_once);
    unmarked = rw e at (h.unmarked);
  })
  | inr e ↦ rw e (record {
    seqno_nonneg = h.seqno_nonneg;
    requests = h.requests;
    woken = h.woken;
    open_once = inl refl;
    unmarked = rw e at (h.unmarked);
  })
]

drop-IsSound :
    (s : System) → s.marked ≡ true → IsSound s → IsSound (record s { client = drop s.client })
unfolding drop
drop-IsSound s m h = record {
  seqno_nonneg = h.seqno_nonneg;
  requests = h.requests;
  woken = h.woken;
  open_once = inl refl;
  unmarked = inl m;
}

disconnect-IsSound : (s : System) → IsSound s → IsSound (record s { client = disconnect s.client })
unfolding disconnect
disconnect-IsSound s h = record {
  seqno_nonneg = ground arith;
  requests = ground arith;
  woken = ground arith;
  open_once = ground arith;
  unmarked = ground arith;
}

mark-IsSound :
    (s : System)
    → s.marked ≡ false
    → IsSound s
    → IsSound (record s { client = record s.client { connected = true }; marked = true })
mark-IsSound s m h = record {
  seqno_nonneg = h.seqno_nonneg;
  requests = h.requests;
  woken = h.woken;
  open_once = ground arith;
  unmarked = inl refl;
}

get_seq_no-IsSound :
    (s : System) → IsSound s → IsSound (record s { client = (get_seq_no s.client).1 })
unfolding get_seq_no
get_seq_no-IsSound s h = record {
  seqno_nonneg = omega arith;
  requests = h.requests;
  woken = h.woken;
  open_once = h.open_once;
  unmarked = h.unmarked;
}

IsEnded-ready :
    (frame : Frame) (rs : List ReqCtx) → All (IsEnded frame) rs → All (λ r. r.ready ≡ true) rs
IsEnded-ready frame [] h = tt
IsEnded-ready frame (r ∷ rs) (h, hs) = (h.0, IsEnded-ready frame rs hs)

abbrev after_ok : Client → Run Client Bool → Client
after_ok c (ok _ c') = c'
after_ok c _ = c

serve-IsSound :
    (s : System) (c : Client) (frame : Frame)
    → s.daemon ≡ reading
    → IsSound s
    → serve frame s.client ≡ ok true c
    → IsSound (record s { client = c })
unfolding serve
serve-IsSound s c frame r h e = elim (Option-cases (dispatch frame s.client.reqs)) [
  | inl e' ↦ let h' = rw (serve, e') at (e) in cc
  | inr (d, e') ↦
      let live = subst (λ p. AreSound p s.client.reqs) r h.requests in
      let served = dispatch-IsServed frame s.client.reqs d live e' in
      subst (λ c'. IsSound (record s { client = c' }))
        (ap (after_ok s.client) (rw (serve, e') at (e)))
        (record {
          seqno_nonneg = h.seqno_nonneg;
          requests = subst (λ p. AreSound p d.reqs) (sym r) served.live;
          woken =
              All-append (λ q. q.ready ≡ true) d.ended s.client.ended
                (IsEnded-ready frame d.ended served.ended) h.woken;
          open_once = h.open_once;
          unmarked = h.unmarked;
        })
]

lose-IsSound :
    (s : System) → s.daemon ≡ reading → IsSound s → IsSound (record s { daemon = releasing })
lose-IsSound s r h = record {
  seqno_nonneg = h.seqno_nonneg;
  requests = AreSound-releasing s.client.reqs (subst (λ p. AreSound p s.client.reqs) r h.requests);
  woken = h.woken;
  open_once = h.open_once;
  unmarked = h.unmarked;
}

release-IsSound :
    (s : System) (curr curr' : ReqCtx) (rest : List ReqCtx) (stop : Bool)
    → s.daemon ≡ releasing
    → s.client.reqs ≡ curr ∷ rest
    → IsSound s
    → call_onframe none true (record curr { rv = some connection_lost }) ≡ some (stop, curr')
    → IsSound (record s { client = record s.client { reqs = curr' ∷ rest } })
release-IsSound s curr curr' rest stop r e h called =
    let told =
      call_onframe-IsTold true (record curr { rv = some connection_lost }) stop curr' refl called in
    let listed =
      subst (AreSound releasing) e (subst (λ p. AreSound p s.client.reqs) r h.requests) in
    record {
      seqno_nonneg = h.seqno_nonneg;
      requests =
          subst (λ p. AreSound p (curr' ∷ rest)) (sym r)
            (
              record { quiet = inl told.is_ready; settled = inr (inr told.code) },
              AreSound-next curr rest listed,
            );
      woken = h.woken;
      open_once = h.open_once;
      unmarked = h.unmarked;
    }

leave-IsSound :
    (s : System)
    → IsSound s
    → IsSound (record s { client = record s.client { reqs = [] }; daemon = gone })
leave-IsSound s h = record {
  seqno_nonneg = h.seqno_nonneg;
  requests = tt;
  woken = h.woken;
  open_once = h.open_once;
  unmarked = h.unmarked;
}

Step-IsSound : (s s' : System) → IsSound s → Step s s' → IsSound s'
Step-IsSound s s' h draws = get_seq_no-IsSound s h
Step-IsSound s s' h (enqueues frame r o n e) =
    enqueue-IsSound s frame (reqctx_init r o) n h (reqctx_init-IsLive r o frame.seqno e)
Step-IsSound s s' h disconnects = disconnect-IsSound s h
Step-IsSound s s' h (drops m) = drop-IsSound s m h
Step-IsSound s s' h (marks m) = mark-IsSound s m h
Step-IsSound s s' h (serves {c = c} frame r e) = serve-IsSound s c frame r h e
Step-IsSound s s' h (loses r) =
    lose-IsSound (record s { client = disconnect s.client }) r (disconnect-IsSound s h)
Step-IsSound s s' h (releases {curr = curr} {curr' = curr'} {rest = rest} stop r e called) =
    release-IsSound s curr curr' rest stop r e h called
Step-IsSound s s' h (leaves r e) = leave-IsSound s h

init-IsSound :
    (c : Client)
    → client_init true true true ≡ ok tt c
    → IsSound (record { client = c; daemon = reading; marked = false })
unfolding client_init
init-IsSound c e =
    subst (λ c'. IsSound (record { client = c'; daemon = reading; marked = false }))
      (ap client_of e)
      (record {
        seqno_nonneg = omega arith;
        requests = tt;
        woken = tt;
        open_once = inl refl;
        unmarked = inr (refl, refl);
      })
  where
    client_of : Run Client (Unit {0}) → Client
    client_of (ok _ c') = c'
    client_of _ = c

-- In every order of the steps of the client's threads: while the daemon reads frames, and once it has returned, each
-- request in the list is live, and while it releases the list, each but the first, which is as a live one or was
-- told of the loss; each request that ended has its caller woken up; sequence numbers stay below 2 ^ 31; a connected
-- client's socket has not been closed, and before `bw2_connect` has marked the client it is not connected. This is
-- about the fields of the requests: whether the callers have given up their memory is not part of it.
pub IsReachable-IsSound : (s : System) → IsReachable s → IsSound s
IsReachable-IsSound s (start {c = c} e) = init-IsSound c e
IsReachable-IsSound s (next r step) = Step-IsSound _ s (IsReachable-IsSound _ r) step
