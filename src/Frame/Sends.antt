-- ===== src/Frame/Sends.antt =====
-- `bw2_writeFrame` puts a frame on the connection in its wire format, and `bw2_frameLength` is the
-- number of bytes behind the first line.
mod Lines
use mathlib.Core.List.{flat_map}
use bw2c.Base.{
  ℕ, suc, ◌+◌, ◌^◌, ◌≤◌, ◌<◌, ◌≡◌, ◌∙◌, List, [], ◌∷◌, ◌++◌, append_assoc, arith, lt→ltb,
  All-append, Bytes, codes, length, length-append, take, take_all, All,
}
use bw2c.Clib.{decimal, zero_pad, cstr_lem, strlen, NoNul, zero_pad-length}
use bw2c.Run.{ok}
use bw2c.Run.Writes.{Writes, Writes-pure, Writes-then}
use bw2c.Os.{Sink}
use bw2c.Utils.Sends.{SendsAll, write_full_array-Writes}
use bw2c.Utils.Writing.{write_full_array}
use bw2c.Frame.{Header, PayloadObj, RoutingObj, Frame, kv_len, po_len, ro_len}
use bw2c.Frame.Length.{add_lens, frame_length, num_digits-decimal, length-decimal-le}
use bw2c.Frame.FirstLine.{length-first_line}
use bw2c.Frame.Objects.{decimal-All-ne}
use bw2c.Frame.Write.{
  kv_header, po_header, ro_header, frame_header, format_seqno, write_object, write_kvs, write_pos,
  write_ros, write_frame,
}
use bw2c.Frame.Wire.{
  token, object, kv_bytes, po_bytes, ro_bytes, body_bytes, first_line, frame_bytes, IsWireHeader,
  IsWirePo, IsWireRo, IsWireFrame,
}
use bw2c.Frame.Sends.Lines.{
  frame_header-first_line, line, line-object, kv_header_lem, po_header_lem, ro_header_lem,
  line-NoNul,
}

-- The loops that add up the lengths.
add_lens-flat_map :
    {A : Type 0} (len : A → ℕ) (print : A → Bytes) (P : A → Type 0) (xs : List A) (n : ℕ)
    → ((x : A) → P x → len x ≡ length (print x))
    → All P xs
    → add_lens len xs n ≡ n + length (flat_map print xs)
unfolding add_lens flat_map
add_lens-flat_map len print P [] n h a = omega arith
add_lens-flat_map len print P (x ∷ xs) n h (a, rest) =
    add_lens-flat_map len print P xs (n + len x) h rest
    ∙ omega (arith, h x a, length-append (print x) (flat_map print xs))

length-token : (s : Bytes) (d : ℕ) → length (token s d) ≡ length s + 1
length-token s d = length-append s (d ∷ [])

length-object :
    (name body : Bytes)
    → length (object name body)
      ≡ length name + 1 + length (decimal (length body)) + 1 + length body + 1
length-object name body = omega (
  arith,
  length-append (token name b' ') (token (decimal (length body)) b'\n' ++ token body b'\n'),
  length-append (token (decimal (length body)) b'\n') (token body b'\n'),
  length-token name b' ',
  length-token (decimal (length body)) b'\n',
  length-token body b'\n',
)

kv_len_lem : (h : Header) → IsWireHeader h → kv_len h ≡ length (kv_bytes h)
unfolding kv_len kv_bytes strlen
kv_len_lem h w =
    rw (cstr_lem h.key w.no_nul, num_digits-decimal, w.len_exact)
      (omega (arith, length-object h.key h.value))

po_len_lem : (p : PayloadObj) → IsWirePo p → po_len p ≡ length (po_bytes p)
unfolding po_len po_bytes
po_len_lem p w =
    rw (num_digits-decimal p.ponum, num_digits-decimal, w.len_exact)
      (omega (arith, length-object (b':' ∷ decimal p.ponum) p.po))

ro_len_lem : (r : RoutingObj) → IsWireRo r → ro_len r ≡ length (ro_bytes r)
unfolding ro_len ro_bytes
ro_len_lem r w =
    rw (num_digits-decimal r.ronum, num_digits-decimal, w.len_exact)
      (omega (arith, length-object (decimal r.ronum) r.ro))

-- For objects that have a wire format, the length that is stated in the first line is the number
-- of the bytes that follow it.
pub frame_length-body_bytes :
    (f : Frame)
    → All IsWireHeader f.hdrs
    → All IsWirePo f.pos
    → All IsWireRo f.ros
    → frame_length f ≡ length (body_bytes f)
unfolding frame_length body_bytes
frame_length-body_bytes f hs ps rs = omega (
  arith,
  add_lens-flat_map kv_len kv_bytes IsWireHeader f.hdrs 4 kv_len_lem hs,
  add_lens-flat_map po_len po_bytes IsWirePo f.pos (add_lens kv_len f.hdrs 4) po_len_lem ps,
  add_lens-flat_map ro_len ro_bytes IsWireRo f.ros
      (add_lens po_len f.pos (add_lens kv_len f.hdrs 4)) ro_len_lem rs,
  length-append (flat_map kv_bytes f.hdrs)
      (flat_map po_bytes f.pos ++ (flat_map ro_bytes f.ros ++ codes "end\n")),
  length-append (flat_map po_bytes f.pos) (flat_map ro_bytes f.ros ++ codes "end\n"),
  length-append (flat_map ro_bytes f.ros) (codes "end\n"),
)

module _ (out : Sink) (f : ℕ) (all : SendsAll out) where
  open out use {State, sent}

  array-Writes :
      (arr : Bytes) → Writes out arr (write_full_array out (suc (suc f)) arr (length arr))
  array-Writes arr s = write_full_array-Writes out f arr s all

  write_object-Writes :
      (line value : Bytes)
      → NoNul line
      → Writes out
          (line ++ (value ++ b'\n' ∷ []))
          (write_object out (suc (suc f)) line value (length value))
  unfolding write_object strlen
  write_object-Writes line value h = rw (cstr_lem line h) (
      Writes-then out line _ _ _ (array-Writes line)
        (Writes-then out value _ _ _ (array-Writes value) (array-Writes (codes "\n"))))

  -- The three objects.
  object-Writes :
      (header tag name body : Bytes) (len : ℕ)
      → header ≡ line tag name (length body)
      → len ≡ length body
      → NoNul tag
      → NoNul name
      → Writes out (tag ++ object name body) (write_object out (suc (suc f)) header body len)
  object-Writes header tag name body len e exact ht hn =
      rw (exact, e, line-object tag name body)
        (write_object-Writes (line tag name (length body)) body
          (line-NoNul tag name (length body) ht hn))

  kvs-Writes :
      (hs : List Header)
      → All IsWireHeader hs
      → Writes out (flat_map kv_bytes hs) (write_kvs out (suc (suc f)) hs)
  unfolding flat_map write_kvs kv_bytes
  kvs-Writes [] ws = Writes-pure out
  kvs-Writes (h ∷ hs) (w, ws) =
      Writes-then out (codes "kv " ++ object h.key h.value) _ _ _
        (object-Writes (kv_header h) (codes "kv ") h.key h.value h.len (kv_header_lem h w)
          w.len_exact (omega arith) w.no_nul)
        (kvs-Writes hs ws)

  pos-Writes :
      (ps : List PayloadObj)
      → All IsWirePo ps
      → Writes out (flat_map po_bytes ps) (write_pos out (suc (suc f)) ps)
  unfolding flat_map write_pos po_bytes
  pos-Writes [] ws = Writes-pure out
  pos-Writes (p ∷ ps) (w, ws) =
      Writes-then out (codes "po " ++ object (b':' ∷ decimal p.ponum) p.po) _ _ _
        (object-Writes (po_header p) (codes "po ") (b':' ∷ decimal p.ponum) p.po p.polen
          (po_header_lem p w) w.len_exact (omega arith)
          (omega arith, decimal-All-ne 0 p.ponum (omega arith)))
        (pos-Writes ps ws)

  ros-Writes :
      (rs : List RoutingObj)
      → All IsWireRo rs
      → Writes out (flat_map ro_bytes rs) (write_ros out (suc (suc f)) rs)
  unfolding flat_map write_ros ro_bytes
  ros-Writes [] ws = Writes-pure out
  ros-Writes (r ∷ rs) (w, ws) =
      Writes-then out (codes "ro " ++ object (decimal r.ronum) r.ro) _ _ _
        (object-Writes (ro_header r) (codes "ro ") (decimal r.ronum) r.ro r.rolen
          (ro_header_lem r w) w.len_exact (omega arith) (decimal-All-ne 0 r.ronum (omega arith)))
        (ros-Writes rs ws)

  frame-Writes :
      (frame : Frame)
      → IsWireFrame frame
      → Writes out (frame_bytes frame) (write_frame out (suc (suc f)) frame)
  unfolding write_frame frame_bytes body_bytes
  frame-Writes frame w =
      Writes-then out (first_line frame) _ _ _
        (rw (frame_header-first_line frame w)
          (rw (length-first_line frame w) at (array-Writes (first_line frame))))
        (Writes-then out (flat_map kv_bytes frame.hdrs) _ _ _ (kvs-Writes frame.hdrs w.hdrs_ok) (
          Writes-then out (flat_map po_bytes frame.pos) _ _ _ (pos-Writes frame.pos w.pos_ok) (
            Writes-then out (flat_map ro_bytes frame.ros) _ _ _ (ros-Writes frame.ros w.ros_ok)
              (array-Writes (codes "end\n")))))

  -- Where `send` takes all that it is given, a frame that has a wire format goes out in it, and
  -- nothing else does.
  pub write_frame-Writes :
      (frame : Frame) (s : State)
      → IsWireFrame frame
      → (s' : State) × (write_frame out (suc (suc f)) frame s ≡ ok tt s')
        × (sent s' ≡ sent s ++ frame_bytes frame)
  write_frame-Writes frame s w = frame-Writes frame w s
