-- ===== src/Frame/Wire.antt =====
-- The wire format of a frame, as bytes, independently of the code that writes or reads it: a line of
-- 27 bytes, then headers, payload objects and routing objects, then "end\n".
use mathlib.Core.List.{flat_map}
use bw2c.Base.{ℕ, ◌<◌, ◌≡◌, ◌≢◌, [], ◌∷◌, ◌++◌, ◌^◌, Bytes, codes, length, All}
use bw2c.Clib.{decimal, zero_pad, NoNul}
use bw2c.Frame.{Header, PayloadObj, RoutingObj, Frame}
use bw2c.Frame.Length.{frame_length}

-- A text and the byte that ends it.
abbrev pub token : Bytes → ℕ → Bytes
token s delimiter = s ++ delimiter ∷ []

-- Name, length and value, behind the type of the object.
abbrev pub object : Bytes → Bytes → Bytes
object name body = token name b' ' ++ (token (decimal (length body)) b'\n' ++ token body b'\n')

unfoldable pub kv_bytes : Header → Bytes
kv_bytes h = codes "kv " ++ object h.key h.value

unfoldable pub po_bytes : PayloadObj → Bytes
po_bytes p = codes "po " ++ object (b':' ∷ decimal p.ponum) p.po

unfoldable pub ro_bytes : RoutingObj → Bytes
ro_bytes r = codes "ro " ++ object (decimal r.ronum) r.ro

-- What the length in the first line counts.
unfoldable pub body_bytes : Frame → Bytes
unfolding flat_map
body_bytes f =
    flat_map kv_bytes f.hdrs
    ++ (flat_map po_bytes f.pos ++ (flat_map ro_bytes f.ros ++ codes "end\n"))

unfoldable pub first_line : Frame → Bytes
first_line f =
    f.cmd
    ++ (b' ' ∷ zero_pad 10 (decimal (frame_length f))
        ++ (b' ' ∷ zero_pad 10 (decimal f.seqno) ++ b'\n' ∷ []))

unfoldable pub frame_bytes : Frame → Bytes
frame_bytes f = first_line f ++ body_bytes f

-- What an object of a frame must be to have a wire format that is read back: its length is that of
-- its value and has at most nine digits.
pub record IsWireHeader (h : Header) : Type 0 where
  pub no_nul : NoNul h.key
  pub no_space : All (λ c. c ≢ b' ') h.key
  pub key_short : length h.key < 31
  pub len_exact : h.len ≡ length h.value
  pub len_short : h.len < 10 ^ 9

pub record IsWirePo (p : PayloadObj) : Type 0 where
  pub ponum_fits : p.ponum < 2 ^ 32
  pub len_exact : p.polen ≡ length p.po
  pub len_short : p.polen < 10 ^ 9

-- The number has at most two digits.
pub record IsWireRo (r : RoutingObj) : Type 0 where
  pub ronum_short : r.ronum < 100
  pub len_exact : r.rolen ≡ length r.ro
  pub len_short : r.rolen < 10 ^ 9

pub record IsWireFrame (f : Frame) : Type 0 where
  pub cmd_exact : length f.cmd ≡ 4
  pub seqno_nonneg : f.seqno < 2 ^ 31
  pub length_short : frame_length f < 10 ^ 10
  pub hdrs_ok : All IsWireHeader f.hdrs
  pub pos_ok : All IsWirePo f.pos
  pub ros_ok : All IsWireRo f.ros
