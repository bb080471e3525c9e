-- ===== src/Os/Queue.antt =====
-- Connections that are concrete functions: they meet the interfaces, and carry the tests.
use Prim.Native.Nat.{min}
use bw2c.Base.{
  ℕ, zero, suc, ◌≤◌, ◌<◌, ◌≡◌, ◌≢◌, ◌⊎◌, inl, refl, sym, ap, true, none, some, Option, [], ◌∷◌,
  ◌++◌, arith, Bytes, length, take, drop, take_all, take-append-drop, length-take-le,
}
use bw2c.Os.{Source, Sink, Received, closed, failed, bytes}

-- The bytes that are under way come in pieces of at most three.
abbrev pub recv_three : ℕ → Bytes → Received × Bytes
recv_three n [] = (closed, [])
recv_three zero (c ∷ s) = (closed, c ∷ s)
recv_three (suc n) (c ∷ s) = (bytes c (take (min n 2) s), drop (min n 2) s)

pub recv_three_delivers :
    (n : ℕ) (s : Bytes)
    → 0 < n
    → s ≢ []
    → (c : ℕ) × (cs : Bytes) × (s' : Bytes) × (recv_three n s ≡ (bytes c cs, s'))
      × (s ≡ c ∷ cs ++ s')
      × (length (c ∷ cs) ≤ n)
recv_three_delivers n [] pos ne = absurd (ne refl)
recv_three_delivers zero (c ∷ s) pos ne = absurd (omega arith)
recv_three_delivers (suc n) (c ∷ s) pos ne = (
  c,
  take (min n 2) s,
  drop (min n 2) s,
  refl,
  ap (λ t. c ∷ t) (sym (take-append-drop (min n 2) s)),
  omega (arith, length-take-le (min n 2) s),
)

pub recv_three_stops :
    (n : ℕ) (s : Bytes)
    → s ≡ []
    → (s' : Bytes) × ((recv_three n s ≡ (closed, s')) ⊎ (recv_three n s ≡ (failed, s'))) × (s' ≡ [])
recv_three_stops n [] e = ([], inl refl, refl)
recv_three_stops n (c ∷ s) e = cc

abbrev pub three_at_a_time : Source
three_at_a_time = record {
  State = Bytes;
  recv = recv_three;
  malloc = λ n s. (true, s);
  incoming = λ s. s;
  recv_delivers = recv_three_delivers;
  recv_stops = recv_three_stops;
  malloc_keeps = λ n s. refl;
}

-- A sink that takes at most `cap` bytes in a call.
abbrev pub send_up_to : ℕ → Bytes → Bytes → Option ℕ × Bytes
send_up_to cap bs s = (some (min cap (length bs)), s ++ take (min cap (length bs)) bs)

pub send_up_to_takes :
    (cap : ℕ) (bs s s' : Bytes) (n : ℕ)
    → send_up_to cap bs s ≡ (some n, s')
    → (n ≤ length bs) × (s' ≡ s ++ take n bs)
send_up_to_takes cap bs s s' n e =
    let fits : min cap (length bs) ≤ length bs = omega arith in ground arith

pub send_up_to_fails : (cap : ℕ) (bs s s' : Bytes) → send_up_to cap bs s ≡ (none, s') → s' ≡ s
send_up_to_fails cap bs s s' e = ground arith

abbrev pub bounded_sink : ℕ → Sink
bounded_sink cap = record {
  State = Bytes;
  send = send_up_to cap;
  sent = λ s. s;
  send_takes = send_up_to_takes cap;
  send_fails = send_up_to_fails cap;
}

-- A sink that takes all.
abbrev pub send_whole : Bytes → Bytes → Option ℕ × Bytes
send_whole bs s = (some (length bs), s ++ bs)

pub whole_sink_takes :
    (bs s s' : Bytes) (n : ℕ)
    → send_whole bs s ≡ (some n, s')
    → (n ≤ length bs) × (s' ≡ s ++ take n bs)
whole_sink_takes bs s s' n e =
    let whole : take (length bs) bs ≡ bs = take_all (length bs) bs (omega arith) in ground arith

pub whole_sink_fails : (bs s s' : Bytes) → send_whole bs s ≡ (none, s') → s' ≡ s
whole_sink_fails bs s s' e = ground arith

abbrev pub whole_sink : Sink
whole_sink = record {
  State = Bytes;
  send = send_whole;
  sent = λ s. s;
  send_takes = whole_sink_takes;
  send_fails = whole_sink_fails;
}

-- A sink whose connection is gone.
abbrev pub send_nothing : Bytes → Bytes → Option ℕ × Bytes
send_nothing bs s = (none, s)

pub broken_sink_takes :
    (bs s s' : Bytes) (n : ℕ)
    → send_nothing bs s ≡ (some n, s')
    → (n ≤ length bs) × (s' ≡ s ++ take n bs)
broken_sink_takes bs s s' n e = cc

pub broken_sink_fails : (bs s s' : Bytes) → send_nothing bs s ≡ (none, s') → s' ≡ s
broken_sink_fails bs s s' e = ground arith

abbrev pub broken_sink : Sink
broken_sink = record {
  State = Bytes;
  send = send_nothing;
  sent = λ s. s;
  send_takes = broken_sink_takes;
  send_fails = broken_sink_fails;
}
