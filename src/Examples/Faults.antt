-- ===== src/Examples/Faults.antt =====
-- Connections on which the code goes wrong: a `send` that takes two bytes, a key of 31 bytes, a full heap.
use bw2c.Base.{
  ℕ, zero, suc, ◌≢◌, All, replicate, ◌-◌, ◌≡◌, refl, some, [], ◌++◌, arith, Bytes, codes, length,
  take,
}
use bw2c.Run.{ok, fault}
use bw2c.Os.Queue.{three_at_a_time, bounded_sink}
use bw2c.Utils.Writing.{write_full_array}
use bw2c.Utils.Sends.{SendsSome, Sent, write_full_array-partial, write_full_array-Sent}
use bw2c.Frame.Wire.{object, kv_bytes}
use bw2c.Frame.Read.{read_token, read_kv, read_objects}
use bw2c.Frame.Faults.{read_token-overlong, read_kv-long_key}
use bw2c.Frame.Faults.HeapFull.{read_objects-heap_full}
use bw2c.Examples.Wire.{uri_header, message_frame, message_frame-IsWire}

write_full_array-partial_example :
    (write_full_array (bounded_sink 2) 3 (codes "abc") (length (codes "abc")) []
      ≡ ok tt (codes "aba"))
    × (codes "aba" ≡ [] ++ take 2 (codes "abc") ++ take (length (codes "abc") - 2) (codes "abc"))
write_full_array-partial_example =
    write_full_array-partial (bounded_sink 2) 0 (codes "abc") 2 [] (codes "ab") (codes "aba")
      (omega arith) (omega arith) refl refl

bounded_sink-SendsSome : SendsSome (bounded_sink 2)
bounded_sink-SendsSome bs s s' n e h = ground arith

write_full_array-Sent_example :
    Sent (bounded_sink 2) [] 3 (write_full_array (bounded_sink 2) 4 (codes "abc") 3 [])
write_full_array-Sent_example =
    write_full_array-Sent (bounded_sink 2) 4 (codes "abc") 3 [] bounded_sink-SendsSome (omega arith)
      (omega arith)

read_token-overlong_example : read_token three_at_a_time 4 b' ' (codes "100 3\n") ≡ fault
read_token-overlong_example =
    read_token-overlong three_at_a_time b' ' (codes "100") b' ' (codes "3\n") (codes "100 3\n")
      (λ e. omega arith, (λ e. omega arith, (λ e. omega arith, tt))) refl

abbrev long_key : Bytes
long_key = replicate 31 b'k'

long_key-clean : (n : ℕ) → All (λ (b : ℕ). b ≢ b' ') (replicate n b'k')
long_key-clean zero = tt
long_key-clean (suc n) = (λ e. omega arith, long_key-clean n)

read_kv-long_key_example :
    read_kv three_at_a_time (some 4096) 0 (object (long_key ++ []) (codes "v") ++ []) ≡ fault
read_kv-long_key_example =
    read_kv-long_key three_at_a_time long_key [] (codes "v") [] (some 4096) 0
      (object (long_key ++ []) (codes "v") ++ []) refl (long_key-clean 31) refl

read_objects-heap_full_example :
    read_objects three_at_a_time 2 (some 30) 0 message_frame (kv_bytes uri_header ++ codes "end\n")
    ≡ fault
read_objects-heap_full_example =
    read_objects-heap_full three_at_a_time 1 30 0 message_frame uri_header (codes "end\n")
      (kv_bytes uri_header ++ codes "end\n") message_frame-IsWire.hdrs_ok.0 (omega arith)
      (omega arith) (omega arith) refl
