-- ===== src/Utils/Stored.antt =====
-- What the reading functions of utils.c store, whatever the input is.
use bw2c.Base.{
  ℕ, zero, suc, ◌-◌, ◌≤◌, ◌<◌, ◌≡◌, inl, inr, refl, Bool-cases, ◌∷◌, ◌++◌, ◌==◌, arith, Bytes,
  length, length-append, nil_cases,
}
use bw2c.Run.{Cmd, ◌>>=◌}
use bw2c.Run.Yields.{Yields, Yields-bind}
use bw2c.Os.{Source, Received, closed, failed, bytes}
use bw2c.Utils.Reading.{
  Until, array_full, eof_reached, char_found, until_error, receive, read_until_char, read_full_loop,
  read_until_full,
}

-- `recv` stores no more than it is asked for.
abbrev pub AtMost : ℕ → Received → Type 0
AtMost k (bytes c cs) = length (c ∷ cs) ≤ k
AtMost k _ = Unit

-- A full array has its length.
abbrev pub Filled : ℕ → Until × Bytes → Type 0
Filled len (array_full, arr) = length arr ≡ len
Filled len _ = Unit

module _ (os : Source) where
  open os use {State, recv, incoming, recv_delivers, recv_stops}

  receive-AtMost : (k : ℕ) (s : State) → 0 < k → Yields (AtMost k) (receive os k s)
  unfolding receive
  receive-AtMost k s pos = elim (nil_cases (incoming s)) [
    | inl e ↦ let (s', r, i) = recv_stops k s e in elim r [ inl r ↦ rw r tt | inr r ↦ rw r tt ]
    | inr ne ↦ let (c, cs, s', r, i, l) = recv_delivers k s pos ne in rw r l
  ]

  -- One case for each result of `recv`.
  Yields-receive :
      {B : Type 0} (Q : B → Type 0) (k : ℕ) (f : Received → Cmd State B) (s : State)
      → 0 < k
      → ((s' : State) → Yields Q (f closed s'))
      → ((s' : State) → Yields Q (f failed s'))
      → ((c : ℕ) (cs : Bytes) (s' : State) → length (c ∷ cs) ≤ k → Yields Q (f (bytes c cs) s'))
      → Yields Q ((receive os k >>= f) s)
  Yields-receive Q k f s pos on_closed on_failed on_bytes =
      Yields-bind (AtMost k) Q (receive os k) f s (receive-AtMost k s pos) λ r s'.
        elim r as (λ r. AtMost k r → Yields Q (f r s')) [
          | closed ↦ λ h. on_closed s'
          | failed ↦ λ h. on_failed s'
          | bytes c cs ↦ λ h. on_bytes c cs s' h
        ]

  -- A token has room in its buffer.
  abbrev pub Short : ℕ → Until × Bytes → Type 0
  Short maxlen (status, arr) = length arr ≤ maxlen

  pub read_until_char-Short :
      (maxlen until : ℕ) (s : State) → Yields (Short maxlen) (read_until_char os maxlen until s)
  unfolding read_until_char
  read_until_char-Short zero until s = omega arith
  read_until_char-Short (suc m) until s =
      Yields-receive (Short (suc m)) 1 _ s (omega arith) (λ s'. omega arith) (λ s'. omega arith)
        λ c cs s' h. elim (Bool-cases (c == until)) [
          | inl e ↦ rw e (omega arith)
          | inr e ↦ rw e (
              Yields-bind (Short m) (Short (suc m)) (read_until_char os m until) _ s'
                (read_until_char-Short m until s') (λ a s'' l. omega arith))
        ]

  Filled-later :
      (len k : ℕ) (front arr : Bytes) (status : Until)
      → length front ≡ k
      → k ≤ len
      → Filled (len - k) (status, arr)
      → Filled len (status, front ++ arr)
  Filled-later len k front arr array_full e l h = omega (arith, h, length-append front arr)
  Filled-later len k front arr eof_reached e l h = tt
  Filled-later len k front arr char_found e l h = tt
  Filled-later len k front arr until_error e l h = tt

  read_full_loop-Filled : (f len : ℕ) (s : State) → Yields (Filled len) (read_full_loop os f len s)
  unfolding read_full_loop
  read_full_loop-Filled f zero s = omega arith
  read_full_loop-Filled zero (suc len) s = tt
  read_full_loop-Filled (suc f) (suc len) s =
      Yields-receive (Filled (suc len)) (suc len) _ s (omega arith) (λ s'. tt) (λ s'. tt)
        λ c cs s' h.
          let k = length (c ∷ cs) in
          Yields-bind (Filled (suc len - k)) (Filled (suc len)) (read_full_loop os f (suc len - k))
            _ s' (read_full_loop-Filled f (suc len - k) s')
            (λ (status, arr) s'' l. Filled-later (suc len) k (c ∷ cs) arr status refl h l)

  pub read_until_full-Filled :
      (len : ℕ) (s : State) → Yields (Filled len) (read_until_full os len s)
  unfolding read_until_full
  read_until_full-Filled len s = read_full_loop-Filled len len s
