-- ===== src/Daemon/Wait/Consistent.antt =====
-- What holds in every state that the wait and the signal of a context lead to.
use bw2c.Base.{
  ℕ, zero, suc, ◌≡◌, ◌⊎◌, ◌&&◌, not, inl, refl, Bool, true, false, Option, none, some, arith,
}
use bw2c.Daemon.Wait.{
  Waiter, entering, testing, asleep, woken, leaving, finished, Signaller, outside, holding, marked,
  notified, Party, waiter, signaller, Protocol, initial, wait_step, wake, signal_step, stir_step,
  Step, waits, signals_once, stirs_once, Steps, stay, also, take_lock, enter_signal, stir,
}

abbrev pub holder_of : Waiter → Signaller → Option Party
holder_of testing outside = some waiter
holder_of leaving outside = some waiter
holder_of entering outside = none
holder_of asleep outside = none
holder_of woken outside = none
holder_of finished outside = none
holder_of w s = some signaller

abbrev pub in_wait : Waiter → Bool
in_wait testing = true
in_wait leaving = true
in_wait _ = false

abbrev pub in_signal : Signaller → Bool
in_signal outside = false
in_signal _ = true

abbrev pub has_ready : Waiter → Bool
has_ready leaving = true
has_ready finished = true
has_ready _ = false

abbrev pub has_marked : Signaller → Bool
has_marked marked = true
has_marked notified = true
has_marked _ = false

abbrev pub is_asleep : Waiter → Bool
is_asleep asleep = true
is_asleep _ = false

abbrev pub is_marked : Signaller → Bool
is_marked marked = true
is_marked _ = false

abbrev pub is_holding : Signaller → Bool
is_holding holding = true
is_holding _ = false

pub record IsConsistent (total : ℕ) (p : Protocol) : Type 0 where
  pub held : p.holder ≡ holder_of p.waiting p.signalling
  pub exclusive : (in_wait p.waiting && in_signal p.signalling) ≡ false
  pub left_ready : (has_ready p.waiting && not p.ready) ≡ false
  pub marked_ready : (has_marked p.signalling && not p.ready) ≡ false
  pub not_missed : (is_asleep p.waiting && (p.ready && not (is_marked p.signalling))) ≡ false
  pub begun : (p.signals ≡ total) ⊎ (p.ready ≡ true) ⊎ (p.signalling ≡ holding)

wait_step-IsConsistent :
    (total : ℕ) (p q : Protocol)
    → IsConsistent total p
    → wait_step p ≡ some q
    → IsConsistent total q
unfolding wait_step take_lock
wait_step-IsConsistent total p q h e = record {
  held = ground arith;
  exclusive = ground arith;
  left_ready = ground arith;
  marked_ready = ground arith;
  not_missed = ground arith;
  begun = ground arith;
}

signal_step-IsConsistent :
    (total : ℕ) (p q : Protocol)
    → IsConsistent total p
    → signal_step p ≡ some q
    → IsConsistent total q
unfolding signal_step enter_signal take_lock wake
signal_step-IsConsistent total p q h e = record {
  held = ground arith;
  exclusive = ground arith;
  left_ready = ground arith;
  marked_ready = ground arith;
  not_missed = ground arith;
  begun = ground arith;
}

stir_step-IsConsistent :
    (total : ℕ) (p q : Protocol)
    → IsConsistent total p
    → stir_step p ≡ some q
    → IsConsistent total q
unfolding stir_step stir
stir_step-IsConsistent total p q h e = record {
  held = ground arith;
  exclusive = ground arith;
  left_ready = ground arith;
  marked_ready = ground arith;
  not_missed = ground arith;
  begun = ground arith;
}

initial-IsConsistent : (total stirs : ℕ) → IsConsistent total (initial total stirs)
initial-IsConsistent total stirs = record {
  held = refl;
  exclusive = refl;
  left_ready = refl;
  marked_ready = refl;
  not_missed = refl;
  begun = inl refl;
}

Step-IsConsistent :
    (total : ℕ) (p q : Protocol) → IsConsistent total p → Step p q → IsConsistent total q
Step-IsConsistent total p q h (waits e) = wait_step-IsConsistent total p q h e
Step-IsConsistent total p q h (signals_once e) = signal_step-IsConsistent total p q h e
Step-IsConsistent total p q h (stirs_once e) = stir_step-IsConsistent total p q h e

-- In every state that the threads lead to, in whatever order they run and however often the wait is left
-- without a signal: the lock is held by the thread that is between its lock and its unlock, by one at most; the
-- wait is over only when the flag is set; and a thread that sleeps while the flag is set is about to be woken.
pub steps-IsConsistent :
    (total stirs n : ℕ) (p : Protocol) → Steps n (initial total stirs) p → IsConsistent total p
steps-IsConsistent total stirs zero p stay = initial-IsConsistent total stirs
steps-IsConsistent total stirs (suc n) p (also {q = q} run step) =
    Step-IsConsistent total q p (steps-IsConsistent total stirs n q run) step
