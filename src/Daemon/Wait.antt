-- ===== src/Daemon/Wait.antt =====
-- `bw2_reqctxWait` and `bw2_reqctxSignal` of daemon.c as two threads, the one that makes a call and the daemon's,
-- that share the lock, the condition variable and the flag of one context. Each statement is a step.
pub mod Consistent
pub mod Ends
use bw2c.Base.{ℕ, zero, suc, ◌≡◌, Bool, true, false, Option, none, some, if◌then◌else◌}

-- The place of the thread in `bw2_reqctxWait`: before the lock, at the condition of the loop, within
-- `bw2_condWait` before and after it was woken, before the unlock, and at the end.
pub data Waiter : Type 0 where
  entering testing asleep woken leaving finished : Waiter

-- The place of the daemon: outside `bw2_reqctxSignal`, or before `ready = true`, `bw2_condSignal` or the unlock.
pub data Signaller : Type 0 where
  outside holding marked notified : Signaller

pub data Party : Type 0 where
  waiter signaller : Party

-- `signals` counts the calls of `bw2_reqctxSignal` that the daemon still makes, and `stirs` the times that
-- `bw2_condWait` still returns though nobody signalled.
pub record Protocol : Type 0 where
  pub waiting : Waiter
  pub signalling : Signaller
  pub holder : Option Party
  pub ready : Bool
  pub signals : ℕ
  pub stirs : ℕ

abbrev pub initial : (signals stirs : ℕ) → Protocol
initial signals stirs = record {
  waiting = entering;
  signalling = outside;
  holder = none;
  ready = false;
  signals = signals;
  stirs = stirs;
}

-- The lock is taken if nobody holds it.
take_lock : Option Party → Protocol → Option Protocol
take_lock none p = some p
take_lock (some _) p = none

-- The next step of `bw2_reqctxWait`, if there is one.
unfoldable pub wait_step : Protocol → Option Protocol
unfolding take_lock
wait_step p = elim p.waiting [
  | entering ↦ take_lock p.holder (record p { waiting = testing; holder = some waiter })
  | testing ↦
      if p.ready
      then some (record p { waiting = leaving })
      else some (record p { waiting = asleep; holder = none })
  | asleep ↦ none
  | woken ↦ take_lock p.holder (record p { waiting = testing; holder = some waiter })
  | leaving ↦ some (record p { waiting = finished; holder = none })
  | finished ↦ none
]

-- `bw2_condSignal` wakes the thread that sleeps.
unfoldable pub wake : Waiter → Waiter
wake asleep = woken
wake w = w

enter_signal : ℕ → Protocol → Option Protocol
unfolding take_lock
enter_signal zero p = none
enter_signal (suc n) p =
    take_lock p.holder (record p { signalling = holding; holder = some signaller; signals = n })

-- The next step of the daemon in `bw2_reqctxSignal`, up to the unlock. What the daemon does with other fields of the
-- context behind the unlock (it reads `rv` in a callback, and the place of `next`) is no step.
unfoldable pub signal_step : Protocol → Option Protocol
unfolding enter_signal
signal_step p = elim p.signalling [
  | outside ↦ enter_signal p.signals p
  | holding ↦ some (record p { signalling = marked; ready = true })
  | marked ↦ some (record p { signalling = notified; waiting = wake p.waiting })
  | notified ↦ some (record p { signalling = outside; holder = none })
]

stir : ℕ → Protocol → Option Protocol
stir zero p = none
stir (suc n) p = some (record p { waiting = woken; stirs = n })

-- The sleeping thread wakes up without a signal.
unfoldable pub stir_step : Protocol → Option Protocol
unfolding stir
stir_step p = elim p.waiting [ asleep ↦ stir p.stirs p | _ ↦ none ]

-- The threads run in any order.
pub data Step : Protocol → Protocol → Type 0 where
  waits : {p q : Protocol} → wait_step p ≡ some q → Step p q
  signals_once : {p q : Protocol} → signal_step p ≡ some q → Step p q
  stirs_once : {p q : Protocol} → stir_step p ≡ some q → Step p q

-- A run, with the number of its steps.
pub data Steps : ℕ → Protocol → Protocol → Type 0 where
  stay : {p : Protocol} → Steps zero p p
  also : {n : ℕ} → {p q r : Protocol} → Steps n p q → Step q r → Steps (suc n) p r
