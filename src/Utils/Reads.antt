-- ===== src/Utils/Reads.antt =====
-- What the reading functions return when the bytes that they wait for arrive, in whatever pieces.
use bw2c.Base.{
  ℕ, zero, suc, ◌-◌, ◌≤◌, ◌<◌, ◌≡◌, ◌≢◌, refl, sym, [], ◌∷◌, ◌++◌, arith, ==_refl, ne→==, ap, Bytes,
  length, length-append, append_split, All,
}
use bw2c.Run.{ok}
use bw2c.Run.Reads.{Reads}
use bw2c.Os.{Source, bytes}
use bw2c.Utils.Reading.{
  array_full, char_found, receive, read_until_char, read_until_full, read_full_loop,
}

module _ (os : Source) where
  open os use {State, recv_delivers, incoming}

  -- One call of `recv` with bytes left takes a front of them.
  receive_front :
      (n c : ℕ) (rest : Bytes) (s : State)
      → 0 < n
      → incoming s ≡ c ∷ rest
      → (cs : Bytes) × (s' : State) × (receive os n s ≡ ok (bytes c cs) s')
        × (rest ≡ cs ++ incoming s')
        × (length (c ∷ cs) ≤ n)
  unfolding receive
  receive_front n c rest s pos e =
      let (d, cs, s', got, split, fits) = recv_delivers n s pos (λ none. cc) in
      (cs, s', cc, cc, fits)

  pub receive-Reads : (c : ℕ) → Reads os (c ∷ []) (receive os 1) (bytes c [])
  receive-Reads c s rest e =
      let (cs, s', got, split, fits) = receive_front 1 c rest s (omega arith) e in
      let alone = no_more cs fits in (s', rw alone at got, sym (rw alone at split))
    where
      no_more : (cs : Bytes) → length (c ∷ cs) ≤ 1 → cs ≡ []
      no_more [] h = refl
      no_more (d ∷ cs) h = absurd (omega arith)

  pub read_until_char-Reads :
      (m until : ℕ) (key : Bytes)
      → length key < m
      → All (λ c. c ≢ until) key
      → Reads os (key ++ until ∷ []) (read_until_char os m until) (char_found, key)
  unfolding read_until_char
  read_until_char-Reads zero until key h a s rest e = absurd (omega arith)
  read_until_char-Reads (suc m) until [] h a s rest e =
      let (s', got, left) = receive-Reads until s rest e in (s', rw (got, ==_refl until), left)
  read_until_char-Reads (suc m) until (c ∷ key) h a s rest e =
      let (s₁, got, left) = receive-Reads c s (key ++ until ∷ [] ++ rest) e in
      let (s₂, more, done) = read_until_char-Reads m until key (omega arith) a.1 s₁ rest left in
      (s₂, rw (got, ne→== c until a.0, more), done)

  -- One round, with the chunk that came and the round after it.
  read_full_step :
      (f b : ℕ) (bs cs ws : Bytes) (s s₁ s₂ : State)
      → receive os (suc (length bs)) s ≡ ok (bytes b cs) s₁
      → bs ≡ cs ++ ws
      → read_full_loop os f (length ws) s₁ ≡ ok (array_full, ws) s₂
      → read_full_loop os (suc f) (suc (length bs)) s ≡ ok (array_full, b ∷ bs) s₂
  unfolding read_full_loop
  read_full_step f b bs cs ws s s₁ s₂ got front more =
      let left_len : suc (length bs) - suc (length cs) ≡ length ws =
        omega (arith, ap length front, length-append cs ws) in
      rw (got, left_len, more) (rw front refl)

  read_full_loop-Reads :
      (f : ℕ) (bs : Bytes)
      → length bs ≤ f
      → Reads os bs (read_full_loop os f (length bs)) (array_full, bs)
  unfolding read_full_loop
  read_full_loop-Reads f [] h s rest e = (s, refl, e)
  read_full_loop-Reads zero (b ∷ bs) h s rest e = absurd (omega arith)
  read_full_loop-Reads (suc f) (b ∷ bs) h s rest e =
      let (cs, s₁, got, split, fits) =
        receive_front (suc (length bs)) b (bs ++ rest) s (omega arith) e in
      let (ws, front, left) = append_split cs (incoming s₁) bs rest split (omega (arith, fits)) in
      let (s₂, more, done) =
        read_full_loop-Reads f ws (shorter bs cs ws front (omega arith)) s₁ rest left in
      (s₂, read_full_step f b bs cs ws s s₁ s₂ got front more, done)
    where
      shorter : (xs us vs : Bytes) → xs ≡ us ++ vs → length xs ≤ f → length vs ≤ f
      shorter xs us vs e h = omega (arith, ap length e, length-append us vs)

  pub read_until_full-Reads :
      (bs : Bytes) → Reads os bs (read_until_full os (length bs)) (array_full, bs)
  unfolding read_until_full
  read_until_full-Reads bs = read_full_loop-Reads (length bs) bs (omega arith)
