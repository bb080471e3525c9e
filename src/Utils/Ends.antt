-- ===== src/Utils/Ends.antt =====
-- The reading functions of utils.c come to an end.
use bw2c.Base.{
  ℕ, zero, suc, ◌+◌, ◌-◌, ◌≤◌, ◌<◌, ap, false, ◌∷◌, ◌++◌, ◌==◌, inl, inr, Bool-cases, arith, Bytes,
  length, length-append, nil_cases,
}
use bw2c.Run.{Cmd, ◌>>=◌}
use bw2c.Run.Ends.{Ends, Ends-bind, Ends-shift}
use bw2c.Os.{Source, Received, closed, failed, bytes}
use bw2c.Utils.Reading.{
  Until, array_full, eof_reached, char_found, until_error, receive, read_until_char,
  drop_until_char, read_full_loop, read_until_full, drop_full_loop, drop_full_array,
}

abbrev pub taken : Received → ℕ
taken (bytes c cs) = length (c ∷ cs)
taken _ = 0

-- An array that is full to `len`; the other two statuses are those of a connection that has ended.
abbrev pub full : {A : Type 0} → ℕ → Until × A → ℕ
full len (array_full, _) = len
full len (char_found, _) = len
full len _ = 0

module _ (os : Source) where
  open os use {State, recv, incoming, recv_delivers, recv_stops}

  pub receive-Ends :
      (n k : ℕ) (s : State) → 0 < k → length (incoming s) ≤ n → Ends os n taken (receive os k s)
  unfolding receive
  receive-Ends n k s pos h = elim (nil_cases (incoming s)) [
    | inl e ↦
        let (s', r, i) = recv_stops k s e in
        elim r [ inl r ↦ rw (r, i) (omega arith) | inr r ↦ rw (r, i) (omega arith) ]
    | inr ne ↦
        let (c, cs, s', r, i, l) = recv_delivers k s pos ne in
        rw r (omega (arith, h, ap length i, length-append (c ∷ cs) (incoming s')))
  ]

  -- One case for each result of `recv`.
  pub Ends-receive :
      {B : Type 0} (n k : ℕ) (used : B → ℕ) (f : Received → Cmd State B) (s : State)
      → 0 < k
      → length (incoming s) ≤ n
      → ((s' : State) → length (incoming s') ≤ n → Ends os n used (f closed s'))
      → ((s' : State) → length (incoming s') ≤ n → Ends os n used (f failed s'))
      → ((c : ℕ) (cs : Bytes) (s' : State)
          → length (incoming s') + length (c ∷ cs) ≤ n
          → Ends os n used (f (bytes c cs) s'))
      → Ends os n used ((receive os k >>= f) s)
  Ends-receive n k used f s pos h on_closed on_failed on_bytes =
      Ends-bind os n taken used (receive os k) f s (receive-Ends n k s pos h) λ r s'.
        elim r as (λ r. length (incoming s') + taken r ≤ n → Ends os n used (f r s')) [
          | closed ↦ λ h'. on_closed s' (omega arith)
          | failed ↦ λ h'. on_failed s' (omega arith)
          | bytes c cs ↦ λ h'. on_bytes c cs s' h'
        ]

  pub read_until_char-Ends :
      (maxlen until n : ℕ) (s : State)
      → length (incoming s) ≤ n
      → Ends os n (λ a. 0) (read_until_char os maxlen until s)
  unfolding read_until_char
  read_until_char-Ends zero until n s h = omega arith
  read_until_char-Ends (suc m) until n s h =
      Ends-receive n 1 (λ a. 0) _ s (omega arith) h (λ s' h'. omega arith) (λ s' h'. omega arith)
        λ c cs s' h'. elim (Bool-cases (c == until)) [
          | inl e ↦ rw e (omega arith)
          | inr e ↦ rw e (
              Ends-bind os n (λ a. 0) (λ a. 0) (read_until_char os m until) _ s'
                (read_until_char-Ends m until n s' (omega arith)) (λ a s'' h''. omega arith))
        ]

  pub drop_until_char-Ends :
      (f until n : ℕ) (s : State)
      → length (incoming s) ≤ n
      → Ends os n (λ a. 0) (drop_until_char os (suc f) until false s)
  unfolding drop_until_char
  drop_until_char-Ends f until n s h =
      Ends-receive n 1 (λ a. 0) _ s (omega arith) h (λ s' h'. omega arith) (λ s' h'. omega arith)
        (λ c cs s' h'. tt)

  -- The bytes of one round and those of the later ones.
  full_later :
      {A : Type 0} (len k n m : ℕ) (a a' : A) (status : Until)
      → m + (k + full (len - k) (status, a)) ≤ n
      → m + full len (status, a') ≤ n
  full_later len k n m a a' array_full h = omega (arith, h)
  full_later len k n m a a' eof_reached h = omega (arith, h)
  full_later len k n m a a' char_found h = omega (arith, h)
  full_later len k n m a a' until_error h = omega (arith, h)

  read_full_loop-Ends :
      (f len n : ℕ) (s : State)
      → len ≤ f
      → length (incoming s) ≤ n
      → Ends os n (full len) (read_full_loop os f len s)
  unfolding read_full_loop
  read_full_loop-Ends f zero n s lt h = omega arith
  read_full_loop-Ends zero (suc len) n s lt h = absurd (omega arith)
  read_full_loop-Ends (suc f) (suc len) n s lt h =
      Ends-receive n (suc len) (full (suc len)) _ s (omega arith) h (λ s' h'. omega arith)
        (λ s' h'. omega arith)
        λ c cs s' h'.
          let k = length (c ∷ cs) in
          Ends-bind os n (λ a. k + full (suc len - k) a) (full (suc len))
            (read_full_loop os f (suc len - k)) _ s'
            (Ends-shift os (length (incoming s')) k n (full (suc len - k)) _ h' (
              read_full_loop-Ends f (suc len - k) (length (incoming s')) s' (omega arith)
                (omega arith)))
            (λ (status, arr) s'' h''.
              full_later (suc len) k n (length (incoming s'')) arr (c ∷ cs ++ arr) status h'')

  pub read_until_full-Ends :
      (len n : ℕ) (s : State)
      → length (incoming s) ≤ n
      → Ends os n (full len) (read_until_full os len s)
  unfolding read_until_full
  read_until_full-Ends len n s h = read_full_loop-Ends len len n s (omega arith) h

  drop_full_loop-Ends :
      (f len n : ℕ) (s : State)
      → len ≤ f
      → length (incoming s) ≤ n
      → Ends os n (λ a. 0) (drop_full_loop os f len s)
  unfolding drop_full_loop
  drop_full_loop-Ends f zero n s lt h = omega arith
  drop_full_loop-Ends zero (suc len) n s lt h = absurd (omega arith)
  drop_full_loop-Ends (suc f) (suc len) n s lt h =
      Ends-receive n 1 (λ a. 0) _ s (omega arith) h (λ s' h'. omega arith) (λ s' h'. omega arith)
        λ c cs s' h'.
          Ends-bind os n (λ a. 0) (λ a. 0) (drop_full_loop os f (suc len - length (c ∷ cs))) _ s'
            (drop_full_loop-Ends f (suc len - length (c ∷ cs)) n s' (omega arith) (omega arith))
            (λ a s'' h''. omega arith)

  pub drop_full_array-Ends :
      (len n : ℕ) (s : State)
      → length (incoming s) ≤ n
      → Ends os n (λ a. 0) (drop_full_array os len s)
  unfolding drop_full_array
  drop_full_array-Ends len n s h = drop_full_loop-Ends len len n s (omega arith) h
