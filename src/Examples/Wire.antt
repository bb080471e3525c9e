-- ===== src/Examples/Wire.antt =====
-- A frame, its bytes, and the connections of Os/Queue, at which the theorems on frames apply.
use bw2c.Base.{◌≡◌, refl, some, [], ◌∷◌, ◌++◌, arith, Bytes, codes, length}
use bw2c.Clib.{strlen, cstr, decimal}
use bw2c.Run.{ok}
use bw2c.Os.Queue.{three_at_a_time, whole_sink}
use bw2c.Utils.Sends.{SendsAll, write_full_array-Writes}
use bw2c.Utils.Writing.{write_full_array}
use bw2c.Frame.Write.{write_frame}
use bw2c.Frame.Sends.{write_frame-Writes, frame_length-body_bytes}
use bw2c.Frame.{Frame, Header, PayloadObj, RoutingObj, kv_len, po_len, ro_len, num_digits}
use bw2c.Frame.Length.{frame_length, num_digits-decimal}
use bw2c.Frame.Wire.{frame_bytes, body_bytes, IsWireFrame}
use bw2c.Frame.Read.{read_frame}
use bw2c.Frame.RoundTrip.{read_frame-frame_bytes}

abbrev pub uri_header : Header
uri_header = record { key = codes "uri"; len = 5; value = codes "a/b/c" }

abbrev pub text_po : PayloadObj
text_po = record { ponum = 1073742080; polen = 2; po = codes "hi" }

abbrev pub dot_ro : RoutingObj
dot_ro = record { ronum = 32; rolen = 3; ro = codes "dot" }

abbrev pub message_frame : Frame
message_frame = record {
  cmd = codes "publ";
  seqno = 7;
  hdrs = uri_header ∷ [];
  pos = text_po ∷ [];
  ros = dot_ro ∷ [];
}

pub message_frame-IsWire : IsWireFrame message_frame
unfolding frame_length kv_len po_len ro_len num_digits strlen cstr
message_frame-IsWire = record {
  cmd_exact = refl;
  seqno_nonneg = omega arith;
  length_short = omega arith;
  hdrs_ok = (
    record {
      no_nul = (λ e. omega arith, (λ e. omega arith, (λ e. omega arith, tt)));
      no_space = (λ e. omega arith, (λ e. omega arith, (λ e. omega arith, tt)));
      key_short = omega arith;
      len_exact = refl;
      len_short = omega arith;
    },
    tt,
  );
  pos_ok = (record { ponum_fits = omega arith; len_exact = refl; len_short = omega arith }, tt);
  ros_ok = (record { ronum_short = omega arith; len_exact = refl; len_short = omega arith }, tt);
}

read_frame-frame_bytes_example :
    (s' : Bytes) × (read_frame three_at_a_time 4
        (some 4096)
        (frame_bytes message_frame ++ codes "resp")
      ≡ ok message_frame s')
    × (s' ≡ codes "resp")
read_frame-frame_bytes_example =
    read_frame-frame_bytes three_at_a_time message_frame 4 (some 4096)
      (frame_bytes message_frame ++ codes "resp") (codes "resp") message_frame-IsWire (omega arith)
      (omega arith, omega arith) refl

pub whole_sink-SendsAll : SendsAll whole_sink
whole_sink-SendsAll bs s = (s ++ bs, refl)

write_frame-Writes_example :
    (s' : Bytes) × (write_frame whole_sink 2 message_frame (codes "helo") ≡ ok tt s')
    × (s' ≡ codes "helo" ++ frame_bytes message_frame)
write_frame-Writes_example =
    write_frame-Writes whole_sink 0 whole_sink-SendsAll message_frame (codes "helo")
      message_frame-IsWire

frame_length-body_bytes_example : frame_length message_frame ≡ length (body_bytes message_frame)
frame_length-body_bytes_example =
    frame_length-body_bytes message_frame message_frame-IsWire.hdrs_ok message_frame-IsWire.pos_ok
      message_frame-IsWire.ros_ok

num_digits-decimal_example : num_digits 1073742080 ≡ length (decimal 1073742080)
num_digits-decimal_example = num_digits-decimal 1073742080

write_full_array-Writes_example :
    (s' : Bytes) × (write_full_array whole_sink 2 (codes "abc") (length (codes "abc")) (codes "x")
      ≡ ok tt s')
    × (s' ≡ codes "x" ++ codes "abc")
write_full_array-Writes_example =
    write_full_array-Writes whole_sink 0 (codes "abc") (codes "x") whole_sink-SendsAll
