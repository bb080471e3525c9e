-- ===== src/Frame/Sends/Lines.antt =====
-- The lines that are written in front of a frame and of an object.
use bw2c.Base.{
  ℕ, ◌^◌, ◌≤◌, ◌<◌, ◌≡◌, [], ◌∷◌, ◌++◌, append_assoc, arith, lt→ltb, All-append, Bytes, codes,
  length, length-append, take, take_all,
}
use bw2c.Clib.{decimal, zero_pad, cstr_lem, NoNul, zero_pad-length}
use bw2c.Frame.{Header, PayloadObj, RoutingObj, Frame}
use bw2c.Frame.Length.{frame_length, length-decimal-le}
use bw2c.Frame.Objects.{decimal-All-ne}
use bw2c.Frame.Write.{kv_header, po_header, ro_header, frame_header, format_seqno}
use bw2c.Frame.Wire.{object, first_line, IsWireHeader, IsWirePo, IsWireRo, IsWireFrame}

-- The line in front of an object fits into the buffer whole.
line_whole :
    (tag name : Bytes) (n : ℕ)
    → length tag ≤ 4
    → length name ≤ 30
    → n < 10 ^ 9
    → take 46 (tag ++ (name ++ (b' ' ∷ (decimal n ++ b'\n' ∷ []))))
      ≡ tag ++ (name ++ (b' ' ∷ (decimal n ++ b'\n' ∷ [])))
line_whole tag name n ht hn h = take_all 46 _ (
    omega (
      arith,
      length-append tag (name ++ (b' ' ∷ (decimal n ++ b'\n' ∷ []))),
      length-append name (b' ' ∷ (decimal n ++ b'\n' ∷ [])),
      length-append (decimal n) (b'\n' ∷ []),
      length-decimal-le 8 n h,
    ))

pub line-NoNul :
    (tag name : Bytes) (n : ℕ)
    → NoNul tag
    → NoNul name
    → NoNul (tag ++ (name ++ (b' ' ∷ (decimal n ++ b'\n' ∷ []))))
line-NoNul tag name n ht hn = All-append _ tag _ ht (
    All-append _ name _ hn
      (omega arith, All-append _ (decimal n) _ (decimal-All-ne 0 n (omega arith)) (omega arith)))

pub frame_header-first_line : (f : Frame) → IsWireFrame f → frame_header f ≡ first_line f
unfolding frame_header first_line format_seqno
frame_header-first_line f w = rw (
  lt→ltb f.seqno (2 ^ 31) w.seqno_nonneg,
  take_all 10 (zero_pad 10 (decimal (frame_length f))) (padded _ w.length_short),
  take_all 10 (zero_pad 10 (decimal f.seqno)) (padded f.seqno (omega arith)),
)
  where
    padded : (n : ℕ) → n < 10 ^ 10 → length (zero_pad 10 (decimal n)) ≤ 10
    padded n h = omega (arith, zero_pad-length 10 (decimal n) (length-decimal-le 9 n h))

-- The line in front of an object, and the object as the line and the value.
abbrev pub line : (tag name : Bytes) (n : ℕ) → Bytes
line tag name n = tag ++ (name ++ (b' ' ∷ (decimal n ++ b'\n' ∷ [])))

pub line-object :
    (tag name body : Bytes)
    → tag ++ object name body ≡ line tag name (length body) ++ (body ++ b'\n' ∷ [])
line-object tag name body = simp append_assoc

pub kv_header_lem :
    (h : Header) → IsWireHeader h → kv_header h ≡ line (codes "kv ") h.key (length h.value)
unfolding kv_header
kv_header_lem h w =
    rw (cstr_lem h.key w.no_nul, ← w.len_exact)
      (line_whole (codes "kv ") h.key h.len (omega arith) (omega arith) w.len_short)

pub po_header_lem :
    (p : PayloadObj)
    → IsWirePo p
    → po_header p ≡ line (codes "po ") (b':' ∷ decimal p.ponum) (length p.po)
unfolding po_header
po_header_lem p w = rw (← w.len_exact) (
    line_whole (codes "po :") (decimal p.ponum) p.polen (omega arith)
      (omega (arith, length-decimal-le 9 p.ponum (omega arith))) w.len_short)

pub ro_header_lem :
    (r : RoutingObj) → IsWireRo r → ro_header r ≡ line (codes "ro ") (decimal r.ronum) (length r.ro)
unfolding ro_header
ro_header_lem r w = rw (← w.len_exact) (
    line_whole (codes "ro ") (decimal r.ronum) r.rolen (omega arith)
      (omega (arith, length-decimal-le 1 r.ronum (omega arith))) w.len_short)
