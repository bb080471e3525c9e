-- ===== src/Frame/Write.antt =====
-- `bw2_writeFrame` of frame.c.
use bw2c.Base.{ℕ, ◌-◌, ◌^◌, List, [], ◌∷◌, ◌++◌, ltb, if◌then◌else◌, Bytes, codes, take}
use bw2c.Clib.{decimal, zero_pad, cstr, strlen}
use bw2c.Run.{Cmd, pure, ◌>>◌}
use bw2c.Os.{Sink}
use bw2c.Utils.Writing.{write_full_array}
use bw2c.Frame.{Header, PayloadObj, RoutingObj, Frame, max_local_header_length}
use bw2c.Frame.Length.{frame_length}

-- `snprintf(buf, size, …)`: all that fits in front of the terminating NUL.
abbrev snprintf : ℕ → Bytes → Bytes
snprintf size s = take (size - 1) s

-- "%010" PRId32: a sign counts in the width.
unfoldable pub format_seqno : ℕ → Bytes
format_seqno seqno =
    if ltb seqno (2 ^ 31)
    then zero_pad 10 (decimal seqno)
    else b'-' ∷ zero_pad 9 (decimal (2 ^ 32 - seqno))

-- `struct bw2_frameheader`: each `snprintf` has one byte more than its field, and the NUL is
-- overwritten by the field behind.
unfoldable pub frame_header : Frame → Bytes
unfolding format_seqno
frame_header frame =
    frame.cmd
    ++ (b' ' ∷ snprintf 11 (zero_pad 10 (decimal (frame_length frame)))
        ++ (b' ' ∷ snprintf 11 (format_seqno frame.seqno) ++ b'\n' ∷ []))

-- "kv %s %zu\n", "po :%" PRIu32 " %zu\n", "ro %" PRIu8 " %zu\n"
unfoldable pub kv_header : Header → Bytes
kv_header h =
    snprintf max_local_header_length
      (codes "kv " ++ (cstr h.key ++ (b' ' ∷ (decimal h.len ++ b'\n' ∷ []))))

unfoldable pub po_header : PayloadObj → Bytes
po_header p =
    snprintf max_local_header_length
      (codes "po :" ++ (decimal p.ponum ++ (b' ' ∷ (decimal p.polen ++ b'\n' ∷ []))))

unfoldable pub ro_header : RoutingObj → Bytes
ro_header r =
    snprintf max_local_header_length
      (codes "ro " ++ (decimal r.ronum ++ (b' ' ∷ (decimal r.rolen ++ b'\n' ∷ []))))

module _ (out : Sink) (fuel : ℕ) where
  open out use {State}

  -- One object: its line, its value, a newline.
  unfoldable pub write_object : (line value : Bytes) (len : ℕ) → Cmd State (Unit {0})
  write_object line value len = do
    write_full_array out fuel line (strlen line)
    write_full_array out fuel value len
    write_full_array out fuel (codes "\n") 1

  unfoldable pub write_kvs : List Header → Cmd State (Unit {0})
  unfolding write_object
  write_kvs [] = pure tt
  write_kvs (h ∷ next) = do write_object (kv_header h) h.value h.len; write_kvs next

  unfoldable pub write_pos : List PayloadObj → Cmd State (Unit {0})
  unfolding write_object
  write_pos [] = pure tt
  write_pos (p ∷ next) = do write_object (po_header p) p.po p.polen; write_pos next

  unfoldable pub write_ros : List RoutingObj → Cmd State (Unit {0})
  unfolding write_object
  write_ros [] = pure tt
  write_ros (r ∷ next) = do write_object (ro_header r) r.ro r.rolen; write_ros next

  unfoldable pub write_frame : Frame → Cmd State (Unit {0})
  unfolding write_kvs write_pos write_ros
  write_frame frame = do
    write_full_array out fuel (frame_header frame) 27
    write_kvs frame.hdrs
    write_pos frame.pos
    write_ros frame.ros
    write_full_array out fuel (codes "end\n") 4
