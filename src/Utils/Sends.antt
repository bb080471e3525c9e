-- ===== src/Utils/Sends.antt =====
-- `bw2_write_full_array`: what it sends when `send` takes everything at once, and how it ends when
-- `send` takes less.
use bw2c.Base.{
  ℕ, zero, suc, ◌+◌, ◌-◌, ◌≤◌, ◌<◌, ◌≡◌, ◌≢◌, refl, ap, Option, none, some, inl, inr, Bool-cases,
  [], ◌∷◌, ◌++◌, append-nil, arith, ◌==◌, ==_refl, ne→==, Bytes, length, length-append, take,
  take_all, length-take-le, length-take,
}
use bw2c.Run.{Run, ok, err, fault, spin, system}
use bw2c.Os.{Sink}
use bw2c.Utils.Writing.{write_full_array, write_loop}

module _ (out : Sink) where
  open out use {State, send, sent, send_takes, send_fails}

  -- A `send` that blocks until all is taken.
  abbrev pub SendsAll : Type 0
  SendsAll = (bs : Bytes) (s : State) → (s' : State) × (send bs s ≡ (some (length bs), s'))

  -- The three ways of a round.
  loop_done :
      (f : ℕ) (arr : Bytes) (len : ℕ) (s : State) → write_loop out (suc f) arr len len s ≡ ok tt s
  unfolding write_loop
  loop_done f arr len s = rw (==_refl len)

  loop_took :
      (f : ℕ) (arr : Bytes) (len written k : ℕ) (s s' : State)
      → written ≢ len
      → send (take (len - written) arr) s ≡ (some k, s')
      → write_loop out (suc f) arr len written s ≡ write_loop out f arr len (written + k) s'
  unfolding write_loop
  loop_took f arr len written k s s' ne e = rw (ne→== written len ne, e, e)

  loop_failed :
      (f : ℕ) (arr : Bytes) (len written : ℕ) (s s' : State)
      → written ≢ len
      → send (take (len - written) arr) s ≡ (none, s')
      → write_loop out (suc f) arr len written s ≡ err system s'
  unfolding write_loop
  loop_failed f arr len written s s' ne e = rw (ne→== written len ne, e, e)

  -- Where `send` takes all that it is given, the array is sent, once and whole.
  pub write_full_array-Writes :
      (f : ℕ) (arr : Bytes) (s : State)
      → SendsAll
      → (s' : State) × (write_full_array out (suc (suc f)) arr (length arr) s ≡ ok tt s')
        × (sent s' ≡ sent s ++ arr)
  unfolding write_full_array
  write_full_array-Writes f [] s all = (s, loop_done (suc f) [] 0 s, rw append-nil)
  write_full_array-Writes f (b ∷ bs) s all =
      let (s', e) = all (b ∷ bs) s in
      let (_, out_bytes) = send_takes (b ∷ bs) s s' (length (b ∷ bs)) e in
      let whole : take (length (b ∷ bs) - 0) (b ∷ bs) ≡ b ∷ bs =
        take_all (length (b ∷ bs) - 0) (b ∷ bs) (omega arith) in
      let none_left : 0 + length (b ∷ bs) ≡ length (b ∷ bs) = omega arith in
      (
        s',
        rw
            (
              loop_took (suc f) (b ∷ bs) (length (b ∷ bs)) 0 (length (b ∷ bs)) s s' (omega arith)
                  (rw whole e),
              none_left,
            )
            (loop_done f (b ∷ bs) (length (b ∷ bs)) s'),
        rw (out_bytes, take_all (length (b ∷ bs)) (b ∷ bs) (omega arith)),
      )

  -- If the first `send` takes only `k` bytes and the second all that it is given, the second is
  -- given the front of the array once more: what goes out is the first `k` bytes, and then not the
  -- rest of the array but its front again. The function reports success.
  pub write_full_array-partial :
      (f : ℕ) (arr : Bytes) (k : ℕ) (s s₁ s₂ : State)
      → 0 < k
      → k < length arr
      → send arr s ≡ (some k, s₁)
      → send (take (length arr - k) arr) s₁ ≡ (some (length arr - k), s₂)
      → (write_full_array out (suc (suc (suc f))) arr (length arr) s ≡ ok tt s₂)
        × (sent s₂ ≡ sent s ++ take k arr ++ take (length arr - k) arr)
  unfolding write_full_array
  write_full_array-partial f arr k s s₁ s₂ pos lt e e' =
      let whole : take (length arr - 0) arr ≡ arr = take_all (length arr - 0) arr (omega arith) in
      let all_sent : 0 + k + (length arr - k) ≡ length arr = omega arith in
      let start : 0 + k ≡ k = omega arith in
      let (_, first) = send_takes arr s s₁ k e in
      let (_, second) = send_takes (take (length arr - k) arr) s₁ s₂ (length arr - k) e' in
      (
        rw
            (
              loop_took (suc (suc f)) arr (length arr) 0 k s s₁ (omega arith) (rw whole e),
              loop_took (suc f) arr (length arr) (0 + k) (length arr - k) s₁ s₂ (omega arith)
                  (rw start e'),
              all_sent,
            )
            (loop_done f arr (length arr) s₂),
        rw (
          second,
          first,
          take_all (length arr - k) (take (length arr - k) arr) (length-take-le _ arr),
        ),
      )

  -- A `send` that takes at least a byte of what it is given, unless it fails.
  abbrev pub SendsSome : Type 0
  SendsSome = (bs : Bytes) (s s' : State) (n : ℕ) → send bs s ≡ (some n, s') → 0 < length bs → 0 < n

  -- What a finished call has sent, by number.
  abbrev pub Sent : State → ℕ → Run State (Unit {0}) → Type 0
  Sent s len (ok _ s') = length (sent s') ≡ length (sent s) + len
  Sent s len (err e s') = (e ≡ system) × (length (sent s') ≤ length (sent s) + len)
  Sent s len fault = ⊥
  Sent s len spin = ⊥

  Sent-more :
      (s s₁ : State) (k n : ℕ) (r : Run State (Unit {0}))
      → length (sent s₁) ≡ length (sent s) + k
      → Sent s₁ n r
      → Sent s (k + n) r
  Sent-more s s₁ k n (ok _ s') h p = omega arith
  Sent-more s s₁ k n (err e s') h p = (p.0, omega arith)
  Sent-more s s₁ k n fault h p = p
  Sent-more s s₁ k n spin h p = p

  loop-Sent :
      (f : ℕ) (arr : Bytes) (len written : ℕ) (s : State)
      → SendsSome
      → len ≤ length arr
      → written ≤ len
      → len - written < f
      → Sent s (len - written) (write_loop out f arr len written s)
  loop-Sent zero arr len written s grows fits le h = absurd (omega arith)
  loop-Sent (suc f) arr len written s grows fits le h = elim (Bool-cases (written == len)) [
    | inl done ↦ let e : written ≡ len = ground arith in rw (e, loop_done f arr len s) (omega arith)
    | inr more ↦ took (loop-Sent f arr len) (ground arith) (send (take (len - written) arr) s) refl
  ]
    where
      part : length (take (len - written) arr) ≡ len - written
      part = length-take (len - written) arr (omega arith)

      took :
          ((w : ℕ) (s' : State)
            → SendsSome
            → len ≤ length arr
            → w ≤ len
            → len - w < f
            → Sent s' (len - w) (write_loop out f arr len w s'))
          → written ≢ len
          → (r : Option ℕ × State) → send (take (len - written) arr) s ≡ r
          → Sent s (len - written) (write_loop out (suc f) arr len written s)
      took rec ne (none, s') e =
          rw (loop_failed f arr len written s s' ne e)
            (refl, omega (arith, ap length (send_fails _ s s' e)))
      took rec ne (some k, s') e =
          let (le_k, out_bytes) = send_takes _ s s' k e in
          let pos = grows _ s s' k e (omega (arith, part)) in
          let left : len - written ≡ k + (len - (written + k)) = omega (arith, part) in
          rw (loop_took f arr len written k s s' ne e, left)
            (Sent-more s s' k (len - (written + k)) _
              (omega (
                arith,
                ap length out_bytes,
                length-append (sent s) (take k (take (len - written) arr)),
                length-take k (take (len - written) arr) le_k,
              ))
              (rec (written + k) s' grows fits (omega (arith, part)) (omega (arith, part))))

  -- With a `send` that never takes nothing, the loop ends within as many rounds as there are bytes
  -- and one more: with success, and then just as many bytes as the array has went out, or with -1.
  pub write_full_array-Sent :
      (f : ℕ) (arr : Bytes) (len : ℕ) (s : State)
      → SendsSome
      → len ≤ length arr
      → len < f
      → Sent s len (write_full_array out f arr len s)
  unfolding write_full_array
  write_full_array-Sent f arr len s grows fits h =
      let all : len - 0 ≡ len = omega arith in
      rw all at (loop-Sent f arr len 0 s grows fits (omega arith) (omega arith))
