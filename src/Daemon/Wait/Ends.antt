-- ===== src/Daemon/Wait/Ends.antt =====
-- That the wait for a context comes to an end, and that its lock is free then.
use bw2c.Base.{
  ℕ, zero, suc, ◌+◌, ◌*◌, ◌≤◌, ◌<◌, ◌≡◌, ◌⊎◌, inl, inr, refl, ap, ◌∙◌, false, none, Option-cases,
  arith,
}
use bw2c.Daemon.Wait.{
  Waiter, entering, testing, asleep, woken, leaving, finished, Signaller, outside, holding, marked,
  notified, Protocol, initial, wait_step, wake, signal_step, stir_step, Step, waits, signals_once,
  stirs_once, Steps, stay, also, take_lock, enter_signal, stir,
}
use bw2c.Daemon.Wait.Consistent.{IsConsistent, steps-IsConsistent, has_ready, holder_of}

abbrev wait_weight : Waiter → ℕ
wait_weight entering = 3
wait_weight woken = 3
wait_weight testing = 2
wait_weight asleep = 1
wait_weight leaving = 1
wait_weight finished = 0

abbrev signal_weight : Signaller → ℕ
signal_weight outside = 0
signal_weight notified = 1
signal_weight marked = 4
signal_weight holding = 5

abbrev weight : Protocol → ℕ
weight p = wait_weight p.waiting + signal_weight p.signalling + 6 * p.signals + 3 * p.stirs

Step-weight : (p q : Protocol) → Step p q → weight q < weight p
unfolding wait_step take_lock signal_step enter_signal stir_step stir wake
Step-weight p q (waits e) = ground arith
Step-weight p q (signals_once e) = ground arith
Step-weight p q (stirs_once e) = ground arith

steps-weight : (n : ℕ) (p q : Protocol) → Steps n p q → n + weight q ≤ weight p
steps-weight zero p q stay = omega arith
steps-weight (suc n) p q (also {q = m} run step) =
    omega (arith, steps-weight n p m run, Step-weight m q step)

-- Neither thread has a step left.
stuck_finished :
    (total : ℕ) (p : Protocol)
    → 0 < total
    → IsConsistent total p
    → wait_step p ≡ none
    → signal_step p ≡ none
    → p.waiting ≡ finished
unfolding wait_step take_lock signal_step enter_signal
stuck_finished total p pos h w s = ground arith

next_or_finished :
    (total : ℕ) (p : Protocol)
    → 0 < total
    → IsConsistent total p
    → ((q : Protocol) × Step p q) ⊎ (p.waiting ≡ finished)
next_or_finished total p pos h = elim (Option-cases (wait_step p)) [
  | inr (q, e) ↦ inl (q, waits e)
  | inl w ↦ elim (Option-cases (signal_step p)) [
    | inr (q, e) ↦ inl (q, signals_once e)
    | inl s ↦ inr (stuck_finished total p pos h w s)
  ]
]

-- Where the daemon signals at least once, the wait comes to its end: whatever the order of the threads' steps,
-- there are at most so many, and as long as `bw2_reqctxWait` has not returned there is a next one.
pub steps-progress :
    (total stirs n : ℕ) (p : Protocol)
    → 0 < total
    → Steps n (initial total stirs) p
    → (n ≤ 3 + 6 * total + 3 * stirs) × (((q : Protocol) × Step p q) ⊎ (p.waiting ≡ finished))
steps-progress total stirs n p pos run = (
  omega (arith, steps-weight n (initial total stirs) p run),
  next_or_finished total p pos (steps-IsConsistent total stirs n p run),
)

pub record IsThrough (p : Protocol) : Type 0 where
  pub spent : (p.signals ≡ 0) ⊎ ((p.ready ≡ false) × (p.signalling ≡ outside))
  pub through : (has_ready p.waiting ≡ false) ⊎ ((p.signals ≡ 0) × (p.signalling ≡ outside))

Step-IsThrough : (p q : Protocol) → IsConsistent 1 p → IsThrough p → Step p q → IsThrough q
unfolding wait_step take_lock signal_step enter_signal stir_step stir wake
Step-IsThrough p q h u (waits e) = record { spent = ground arith; through = ground arith }
Step-IsThrough p q h u (signals_once e) = record { spent = ground arith; through = ground arith }
Step-IsThrough p q h u (stirs_once e) = record { spent = ground arith; through = ground arith }

steps-IsThrough : (stirs n : ℕ) (p : Protocol) → Steps n (initial 1 stirs) p → IsThrough p
steps-IsThrough stirs zero p stay = record { spent = inr (refl, refl); through = inl refl }
steps-IsThrough stirs (suc n) p (also {q = q} run step) =
    Step-IsThrough q p (steps-IsConsistent 1 stirs n q run) (steps-IsThrough stirs n q run) step

finished_through :
    (p : Protocol) → IsThrough p → p.waiting ≡ finished → (p.signals ≡ 0) × (p.signalling ≡ outside)
finished_through p u e = (ground arith, ground arith)

-- Once the wait for a context has returned that the daemon signals once and does nothing else with the lock of, as
-- it is with a request that is answered by one frame: nobody holds the lock, and the daemon is out of
-- `bw2_reqctxSignal` and does not enter it again, so that the caller can destroy the lock and the condition
-- variable. Nothing is said about the other fields of the context.
pub steps-unlocked :
    (stirs n : ℕ) (p : Protocol)
    → Steps n (initial 1 stirs) p
    → p.waiting ≡ finished
    → (p.holder ≡ none) × (p.signalling ≡ outside) × (signal_step p ≡ none)
unfolding signal_step enter_signal
steps-unlocked stirs n p run e =
    let (s, o) = finished_through p (steps-IsThrough stirs n p run) e in
    (
      (steps-IsConsistent 1 stirs n p run).held
          ∙ ap (holder_of p.waiting) o
          ∙ ap (λ w. holder_of w outside) e,
      o,
      rw (o, s) refl,
    )
