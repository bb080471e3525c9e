-- ===== src/Frame/FirstLine.antt =====
-- The first line of a frame: 27 bytes, accepted and parsed by `bw2_readFrame`.
use bw2c.Base.{
  ℕ, ◌%◌, ◌^◌, ◌<◌, ◌≡◌, sym, ◌∙◌, ap, true, some, [], ◌∷◌, ◌++◌, append_assoc, arith, Bytes,
  length, length-append, take-append, drop-append, take, drop, get_elem?-append, get_elem?,
}
use bw2c.Clib.{cstr, cstr_lem, decimal, zero_pad, zero_pad-length}
use bw2c.Clib.RoundTrip.{strtoull-zero_pad, zero_pad-IsDigit}
use bw2c.Frame.{Frame}
use bw2c.Frame.Length.{frame_length, length-decimal-le}
use bw2c.Frame.Wire.{first_line, IsWireFrame}
use bw2c.Frame.Read.{header_ok, byte_is, parse_header}
use bw2c.Frame.Objects.{All-ne}

-- A line of three fields, of 4, 10 and 10 bytes.
abbrev line : (c l q : Bytes) → Bytes
line c l q = c ++ (b' ' ∷ l ++ (b' ' ∷ q ++ b'\n' ∷ []))

byte_is_lem : (i b : ℕ) (header : Bytes) → get_elem? header i ≡ some b → byte_is i b header ≡ true
unfolding byte_is
byte_is_lem i b header e = ground arith

module _ (c l q : Bytes) (c4 : length c ≡ 4) (l10 : length l ≡ 10) (q10 : length q ≡ 10) where
  front : Bytes
  front = c ++ b' ' ∷ l

  length-front : length front ≡ 15
  unfolding front
  length-front = omega (arith, length-append c (b' ' ∷ l))

  line-front : line c l q ≡ front ++ (b' ' ∷ q ++ b'\n' ∷ [])
  unfolding front
  line-front = sym (append_assoc c (b' ' ∷ l) (b' ' ∷ q ++ b'\n' ∷ []))

  line-all : line c l q ≡ (front ++ b' ' ∷ q) ++ b'\n' ∷ []
  line-all = line-front ∙ sym (append_assoc front (b' ' ∷ q) (b'\n' ∷ []))

  length-line : length (line c l q) ≡ 27
  length-line = omega (
    arith,
    ap length line-front,
    length-append front (b' ' ∷ q ++ b'\n' ∷ []),
    length-append q (b'\n' ∷ []),
    length-front,
  )

  byte_4 : get_elem? (line c l q) 4 ≡ some b' '
  byte_4 = get_elem?-append 4 c b' ' _ c4

  byte_15 : get_elem? (line c l q) 15 ≡ some b' '
  byte_15 = rw line-front (get_elem?-append 15 front b' ' (q ++ b'\n' ∷ []) length-front)

  byte_26 : get_elem? (line c l q) 26 ≡ some b'\n'
  byte_26 = rw line-all (
      get_elem?-append 26 (front ++ b' ' ∷ q) b'\n' []
        (omega (arith, length-append front (b' ' ∷ q), length-front)))

  header_ok-line : header_ok (line c l q) ≡ true
  unfolding header_ok
  header_ok-line =
      rw
        (byte_is_lem 4 b' ' _ byte_4, byte_is_lem 15 b' ' _ byte_15, byte_is_lem 26 b'\n' _ byte_26)

  cmd-line : take 4 (line c l q) ≡ c
  cmd-line = take-append 4 c _ c4

  drop-line : drop 16 (line c l q) ≡ q ++ b'\n' ∷ []
  drop-line =
      rw (line-front, ← append_assoc front (b' ' ∷ []) (q ++ b'\n' ∷ []))
        (drop-append 16 (front ++ b' ' ∷ []) (q ++ b'\n' ∷ [])
          (omega (arith, length-append front (b' ' ∷ []), length-front)))

  seqno-line : take 10 (drop 16 (line c l q)) ≡ q
  seqno-line = rw drop-line (take-append 10 q (b'\n' ∷ []) q10)

padded-length : (n : ℕ) → n < 10 ^ 10 → length (zero_pad 10 (decimal n)) ≡ 10
padded-length n h = zero_pad-length 10 (decimal n) (length-decimal-le 9 n h)

cstr-padded : (n : ℕ) → cstr (zero_pad 10 (decimal n)) ≡ zero_pad 10 (decimal n)
cstr-padded n = cstr_lem _ (All-ne 0 _ (omega arith) (zero_pad-IsDigit 10 n))

module _ (f : Frame) (w : IsWireFrame f) where
  pub length-first_line : length (first_line f) ≡ 27
  unfolding first_line
  length-first_line =
      length-line f.cmd _ _ w.cmd_exact (padded-length _ w.length_short)
        (padded-length f.seqno (omega arith))

  pub header_ok-first_line : header_ok (first_line f) ≡ true
  unfolding first_line
  header_ok-first_line =
      header_ok-line f.cmd _ _ w.cmd_exact (padded-length _ w.length_short)
        (padded-length f.seqno (omega arith))

  -- The command and the sequence number come back; the lists are still empty.
  pub parse_header-first_line :
      parse_header (first_line f) ≡ record f { hdrs = []; pos = []; ros = [] }
  unfolding first_line parse_header
  parse_header-first_line =
      let l10 = padded-length (frame_length f) w.length_short in
      let q10 = padded-length f.seqno (omega arith) in
      let small : f.seqno % 2 ^ 32 ≡ f.seqno = omega arith in
      rw (
        cmd-line f.cmd _ _ w.cmd_exact l10 q10,
        seqno-line f.cmd _ _ w.cmd_exact l10 q10,
        cstr-padded,
        strtoull-zero_pad 10 f.seqno (omega arith),
        small,
      )
