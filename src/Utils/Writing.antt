-- ===== src/Utils/Writing.antt =====
-- `bw2_write_full_array` of utils.c.
use bw2c.Base.{ℕ, zero, suc, ◌+◌, ◌-◌, none, some, ◌==◌, if◌then◌else◌, Bytes, take}
use bw2c.Run.{ok, err, spin, system, Cmd}
use bw2c.Os.{Sink}

module _ (out : Sink) where
  open out use {State, send}

  -- Each round sends from the start of `arr`: `arr + written` is not what the source passes.
  unfoldable pub write_loop : (fuel : ℕ) (arr : Bytes) (len written : ℕ) → Cmd State (Unit {0})
  write_loop zero arr len written s = spin
  write_loop (suc f) arr len written s =
      let again = λ (k : ℕ) (s' : State). write_loop f arr len (written + k) s' in
      if written == len
      then ok tt s
      else (let (r, s') = send (take (len - written) arr) s in
          elim r [ none ↦ err system s' | some k ↦ again k s' ])

  -- A round that sends nothing is possible, so the fuel bounds the calls of `send`.
  unfoldable pub write_full_array : (fuel : ℕ) (arr : Bytes) (len : ℕ) → Cmd State (Unit {0})
  write_full_array fuel arr len = write_loop fuel arr len 0
