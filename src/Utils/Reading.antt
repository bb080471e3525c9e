-- ===== src/Utils/Reading.antt =====
-- The reading functions of utils.c. An output array is a returned list, so `*bytesread` is its
-- length.
use bw2c.Base.{ℕ, zero, suc, ◌+◌, ◌-◌, Bool, not, [], ◌∷◌, ◌++◌, ◌==◌, if◌then◌else◌, Bytes, length}
use bw2c.Run.{ok, spin, Cmd, pure, crash, ◌>>=◌}
use bw2c.Os.{Source, Received, closed, failed, bytes}

-- BW2_UNTIL_*
pub data Until : Type 0 where
  array_full eof_reached char_found until_error : Until

module _ (os : Source) where
  open os use {State, recv}

  unfoldable pub receive : ℕ → Cmd State Received
  receive n s = let (r, s') = recv n s in ok r s'

  -- `maxlen` falls by one in each round. The status, and the bytes that were stored.
  unfoldable pub read_until_char : (maxlen until : ℕ) → Cmd State (Until × Bytes)
  read_until_char zero until s = ok (array_full, []) s
  read_until_char (suc m) until s =
      (do
        r ← receive 1
        elim r [
          | closed ↦ pure (eof_reached, [])
          | failed ↦ pure (until_error, [])
          | bytes c _ ↦
              if c == until
              then pure (char_found, [])
              else do (status, arr) ← read_until_char m until; pure (status, c ∷ arr)
        ])
        s

  -- `counts` says that `bytesread` is not NULL; without it `(*bytesread)++` follows a null pointer.
  -- A round of the loop takes one unit of fuel.
  unfoldable pub drop_until_char : (fuel until : ℕ) (counts : Bool) → Cmd State (Until × ℕ)
  drop_until_char zero until counts s = spin
  drop_until_char (suc f) until counts s =
      (do
        r ← receive 1
        elim r [
          | closed ↦ pure (eof_reached, 0)
          | failed ↦ pure (until_error, 0)
          | bytes c _ ↦
              if not counts
              then crash
              else if c == until
              then pure (char_found, 1)
              else do (status, n) ← drop_until_char f until counts; pure (status, suc n)
        ])
        s

  unfoldable pub read_full_loop : (fuel len : ℕ) → Cmd State (Until × Bytes)
  read_full_loop fuel zero s = ok (array_full, []) s
  read_full_loop zero (suc n) s = spin
  read_full_loop (suc f) (suc n) s =
      (do
        r ← receive (suc n)
        elim r [
          | closed ↦ pure (eof_reached, [])
          | failed ↦ pure (until_error, [])
          | bytes c cs ↦ do
            (status, arr) ← read_full_loop f (suc n - length (c ∷ cs))
            pure (status, c ∷ cs ++ arr)
        ])
        s

  -- Every round takes a byte or more, so `len` rounds are enough.
  unfoldable pub read_until_full : (len : ℕ) → Cmd State (Until × Bytes)
  unfolding read_full_loop
  read_until_full len = read_full_loop len len

  unfoldable pub drop_full_loop : (fuel len : ℕ) → Cmd State (Until × ℕ)
  drop_full_loop fuel zero s = ok (array_full, 0) s
  drop_full_loop zero (suc n) s = spin
  drop_full_loop (suc f) (suc n) s =
      (do
        r ← receive 1
        elim r [
          | closed ↦ pure (eof_reached, 0)
          | failed ↦ pure (until_error, 0)
          | bytes c cs ↦ do
            (status, k) ← drop_full_loop f (suc n - length (c ∷ cs))
            pure (status, length (c ∷ cs) + k)
        ])
        s

  unfoldable pub drop_full_array : (len : ℕ) → Cmd State (Until × ℕ)
  unfolding drop_full_loop
  drop_full_array len = drop_full_loop len len
