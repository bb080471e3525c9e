-- ===== src/Examples/Threads.antt =====
-- Two threads at one context: the call falls asleep before the daemon signals.
use bw2c.Base.{◌+◌, ◌*◌, ◌≤◌, ◌≡◌, ◌⊎◌, refl, true, none, some, arith}
use bw2c.Daemon.Wait.{
  asleep, finished, outside, marked, signaller, Protocol, initial, wait_step, wake, signal_step,
  stir_step, Step, waits, signals_once, stirs_once, Steps, stay, also,
}
use bw2c.Daemon.Wait.Ends.{steps-progress, steps-unlocked}

-- The call stirs once, and sleeps again.
abbrev sleeping : Protocol
sleeping = record (initial 0 0) { waiting = asleep; signals = 1 }

sleeps : Steps 5 (initial 1 1) sleeping
unfolding wait_step stir_step
sleeps =
    also (also (also (also (also stay (waits refl)) (waits refl)) (stirs_once refl)) (waits refl))
      (waits refl)

-- The daemon is about to wake it.
abbrev waking : Protocol
waking = record sleeping { signalling = marked; holder = some signaller; ready = true; signals = 0 }

wakes : Steps 7 (initial 1 1) waking
unfolding signal_step
wakes = also (also sleeps (signals_once refl)) (signals_once refl)

abbrev over : Protocol
over = record (initial 0 0) { waiting = finished; ready = true }

ends : Steps 12 (initial 1 1) over
unfolding wait_step signal_step wake
ends =
    also
      (also (also (also (also wakes (signals_once refl)) (signals_once refl)) (waits refl))
        (waits refl))
      (waits refl)

steps-progress_example :
    (7 ≤ 3 + 6 * 1 + 3 * 1) × (((q : Protocol) × Step waking q) ⊎ (waking.waiting ≡ finished))
steps-progress_example = steps-progress 1 1 7 waking (omega arith) wakes

steps-unlocked_example :
    (over.holder ≡ none) × (over.signalling ≡ outside) × (signal_step over ≡ none)
steps-unlocked_example = steps-unlocked 1 12 over ends refl
