-- ===== src/Frame/RoundTrip.antt =====
-- `bw2_readFrame` reads a frame back from its wire format, and nothing behind it.
use mathlib.Core.List.{flat_map}
use bw2c.Base.{
  ℕ, zero, suc, ◌+◌, ◌<◌, ◌≡◌, true, Option, some, List, [], ◌∷◌, ◌++◌, append-nil, append_assoc,
  arith, Bytes, codes, length, All,
}
use bw2c.Clib.{decimal, strcmp_eq}
use bw2c.Run.{ok}
use bw2c.Run.Reads.{Reads, Reads-pure, Reads-bind, Reads-last, Reads-unless}
use bw2c.Os.{Source}
use bw2c.Utils.Reading.{array_full}
use bw2c.Utils.Reads.{read_until_full-Reads}
use bw2c.Frame.{Header, PayloadObj, RoutingObj, Frame, append_kv, append_po, append_ro}
use bw2c.Frame.FirstLine.{length-first_line, header_ok-first_line, parse_header-first_line}
use bw2c.Frame.Wire.{
  object, kv_bytes, po_bytes, ro_bytes, body_bytes, first_line, frame_bytes, IsWireHeader, IsWirePo,
  IsWireRo, IsWireFrame,
}
use bw2c.Frame.Read.{read_objects, read_frame, read_kv, read_po, read_ro, struct_size}
use bw2c.Frame.Objects.{
  HasRoom, HasRoom-split, used_after, consume_newline-Reads, read_kv-Reads, read_po-Reads,
  read_ro-Reads,
}

-- What the objects of a frame take of the frame heap, and `more` behind them.
abbrev pub kvs_need : List Header → ℕ → ℕ
kvs_need [] more = more
kvs_need (h ∷ hs) more = struct_size + (length h.key + 1) + h.len + kvs_need hs more

abbrev pub pos_need : List PayloadObj → ℕ → ℕ
pos_need [] more = more
pos_need (p ∷ ps) more = struct_size + 0 + p.polen + pos_need ps more

abbrev pub ros_need : List RoutingObj → ℕ
ros_need [] = 0
ros_need (r ∷ rs) = struct_size + 0 + r.rolen + ros_need rs

abbrev pub frame_need : Frame → ℕ
frame_need f = kvs_need f.hdrs (pos_need f.pos (ros_need f.ros))

abbrev pub objects : Frame → ℕ
objects f = length f.hdrs + length f.pos + length f.ros

module _ (os : Source) where
  open os use {State, incoming}

  step_kv :
      (f : ℕ) (heap : Option ℕ) (used need : ℕ) (frame : Frame) (h : Header) (bs : Bytes)
      (result : Frame)
      → IsWireHeader h
      → HasRoom os heap used (struct_size + (length h.key + 1) + h.len + need)
      → (HasRoom os heap (used_after heap used (struct_size + (length h.key + 1) + h.len)) need
          → Reads os bs
              (read_objects os f heap
                (used_after heap used (struct_size + (length h.key + 1) + h.len))
                (append_kv frame (h ∷ [])))
              result)
      → Reads os (kv_bytes h ++ bs) (read_objects os (suc f) heap used frame) result
  unfolding read_objects kv_bytes strcmp_eq
  step_kv f heap used need frame h bs result w room next =
      let (here, there) =
        HasRoom-split os heap used (struct_size + (length h.key + 1) + h.len) need room in
      λ s rest e.
        Reads-bind os (codes "kv ") (object h.key h.value ++ bs) _ _ (array_full, codes "kv ")
          result (read_until_full-Reads os (codes "kv "))
          (Reads-unless os (object h.key h.value) bs (read_kv os heap used) _ _
            (some h, used_after heap used (struct_size + (length h.key + 1) + h.len)) result
            (read_kv-Reads os heap used h w here) (next there))
          s rest e

  step_po :
      (f : ℕ) (heap : Option ℕ) (used need : ℕ) (frame : Frame) (p : PayloadObj) (bs : Bytes)
      (result : Frame)
      → IsWirePo p
      → HasRoom os heap used (struct_size + 0 + p.polen + need)
      → (HasRoom os heap (used_after heap used (struct_size + 0 + p.polen)) need
          → Reads os bs
              (read_objects os f heap
                (used_after heap used (struct_size + 0 + p.polen))
                (append_po frame (p ∷ [])))
              result)
      → Reads os (po_bytes p ++ bs) (read_objects os (suc f) heap used frame) result
  unfolding read_objects po_bytes strcmp_eq
  step_po f heap used need frame p bs result w room next =
      let (here, there) = HasRoom-split os heap used (struct_size + 0 + p.polen) need room in
      λ s rest e.
        Reads-bind os (codes "po ") (object (b':' ∷ decimal p.ponum) p.po ++ bs) _ _
          (array_full, codes "po ") result (read_until_full-Reads os (codes "po "))
          (Reads-unless os (object (b':' ∷ decimal p.ponum) p.po) bs (read_po os heap used) _ _
            (some p, used_after heap used (struct_size + 0 + p.polen)) result
            (read_po-Reads os heap used p w here) (next there))
          s rest e

  step_ro :
      (f : ℕ) (heap : Option ℕ) (used need : ℕ) (frame : Frame) (r : RoutingObj) (bs : Bytes)
      (result : Frame)
      → IsWireRo r
      → HasRoom os heap used (struct_size + 0 + r.rolen + need)
      → (HasRoom os heap (used_after heap used (struct_size + 0 + r.rolen)) need
          → Reads os bs
              (read_objects os f heap
                (used_after heap used (struct_size + 0 + r.rolen))
                (append_ro frame (r ∷ [])))
              result)
      → Reads os (ro_bytes r ++ bs) (read_objects os (suc f) heap used frame) result
  unfolding read_objects ro_bytes strcmp_eq
  step_ro f heap used need frame r bs result w room next =
      let (here, there) = HasRoom-split os heap used (struct_size + 0 + r.rolen) need room in
      λ s rest e.
        Reads-bind os (codes "ro ") (object (decimal r.ronum) r.ro ++ bs) _ _
          (array_full, codes "ro ") result (read_until_full-Reads os (codes "ro "))
          (Reads-unless os (object (decimal r.ronum) r.ro) bs (read_ro os heap used) _ _
            (some r, used_after heap used (struct_size + 0 + r.rolen)) result
            (read_ro-Reads os heap used r w here) (next there))
          s rest e

  step_end :
      (f : ℕ) (heap : Option ℕ) (used : ℕ) (frame : Frame)
      → Reads os (codes "end\n") (read_objects os (suc f) heap used frame) frame
  unfolding read_objects strcmp_eq
  step_end f heap used frame s rest e =
      Reads-bind os (codes "end") (codes "\n") _ _ (array_full, codes "end") frame
        (read_until_full-Reads os (codes "end"))
        (Reads-last os (codes "\n") _ _ true frame (consume_newline-Reads os) (Reads-pure os frame))
        s rest e

  read_ros :
      (rs : List RoutingObj) (f : ℕ) (heap : Option ℕ) (used : ℕ) (frame : Frame)
      → length rs < f
      → All IsWireRo rs
      → HasRoom os heap used (ros_need rs)
      → Reads os
          (flat_map ro_bytes rs ++ codes "end\n")
          (read_objects os f heap used frame)
          (record frame { ros = frame.ros ++ rs })
  unfolding flat_map append_ro
  read_ros rs zero heap used frame h w room = absurd (omega arith)
  read_ros [] (suc f) heap used frame h w room = rw append-nil (step_end f heap used frame)
  read_ros (r ∷ rs) (suc f) heap used frame h (w, ws) room = rw append_assoc (
      step_ro f heap used (ros_need rs) frame r _ _ w room λ there.
        rw append_assoc at (read_ros rs f heap _ (append_ro frame (r ∷ [])) (omega arith) ws there))

  read_pos :
      (ps : List PayloadObj) (rs : List RoutingObj) (f : ℕ) (heap : Option ℕ) (used : ℕ)
      (frame : Frame)
      → length ps + length rs < f
      → All IsWirePo ps
      → All IsWireRo rs
      → HasRoom os heap used (pos_need ps (ros_need rs))
      → Reads os
          (flat_map po_bytes ps ++ (flat_map ro_bytes rs ++ codes "end\n"))
          (read_objects os f heap used frame)
          (record frame { pos = frame.pos ++ ps; ros = frame.ros ++ rs })
  unfolding flat_map append_po
  read_pos ps rs zero heap used frame h w v room = absurd (omega arith)
  read_pos [] rs (suc f) heap used frame h w v room =
      rw (append-nil frame.pos) (read_ros rs (suc f) heap used frame (omega arith) v room)
  read_pos (p ∷ ps) rs (suc f) heap used frame h (w, ws) v room = rw (append_assoc (po_bytes p)) (
      step_po f heap used (pos_need ps (ros_need rs)) frame p _ _ w room λ there.
        rw append_assoc at
          (read_pos ps rs f heap _ (append_po frame (p ∷ [])) (omega arith) ws v there))

  read_kvs :
      (hs : List Header) (ps : List PayloadObj) (rs : List RoutingObj) (f : ℕ) (heap : Option ℕ)
      (used : ℕ) (frame : Frame)
      → length hs + length ps + length rs < f
      → All IsWireHeader hs
      → All IsWirePo ps
      → All IsWireRo rs
      → HasRoom os heap used (kvs_need hs (pos_need ps (ros_need rs)))
      → Reads os
          (flat_map kv_bytes hs
            ++ (flat_map po_bytes ps ++ (flat_map ro_bytes rs ++ codes "end\n")))
          (read_objects os f heap used frame)
          (record frame { hdrs = frame.hdrs ++ hs; pos = frame.pos ++ ps; ros = frame.ros ++ rs })
  unfolding flat_map append_kv
  read_kvs hs ps rs zero heap used frame h u w v room = absurd (omega arith)
  read_kvs [] ps rs (suc f) heap used frame h u w v room =
      rw (append-nil frame.hdrs) (read_pos ps rs (suc f) heap used frame (omega arith) w v room)
  read_kvs (k ∷ hs) ps rs (suc f) heap used frame h (u, us) w v room =
      rw (append_assoc (kv_bytes k)) (
        step_kv f heap used (kvs_need hs (pos_need ps (ros_need rs))) frame k _ _ u room λ there.
          rw append_assoc at
            (read_kvs hs ps rs f heap _ (append_kv frame (k ∷ [])) (omega arith) us w v there))

  -- A frame in its wire format is read back, whatever bytes follow it and in whatever pieces they
  -- arrive, and the bytes that follow are left on the connection. It is a frame with a command of
  -- four bytes, a sequence number that is not negative, keys below 31 bytes without blanks and
  -- NULs, routing object numbers below 100, lengths of at most nine digits, and room for it in the
  -- frame heap (or from `malloc`). A round of fuel for each object and one more are enough.
  pub read_frame-frame_bytes :
      (f : Frame) (fuel : ℕ) (heap : Option ℕ) (s : State) (rest : Bytes)
      → IsWireFrame f
      → objects f < fuel
      → HasRoom os heap 0 (frame_need f)
      → incoming s ≡ frame_bytes f ++ rest
      → (s' : State) × (read_frame os fuel heap s ≡ ok f s') × (incoming s' ≡ rest)
  unfolding read_frame frame_bytes body_bytes
  read_frame-frame_bytes f fuel heap s rest w h room i =
      Reads-bind os (first_line f) _ _ _ (array_full, first_line f) f
        (rw (length-first_line f w) at (read_until_full-Reads os (first_line f)))
        (rw (header_ok-first_line f w, parse_header-first_line f w)
          (read_kvs f.hdrs f.pos f.ros fuel heap 0 _ h w.hdrs_ok w.pos_ok w.ros_ok room))
        s rest i
