-- ===== src/Api/Requests/Sendable.antt =====
-- The headers of a request have a wire format when its parameters are texts: what the macros of api.c append.
use bw2c.Base.{
  ℕ, zero, suc, ◌-◌, ◌^◌, ◌<◌, ◌≡◌, ◌≢◌, ap, Bool, true, not, ◌&&◌, [], ◌∷◌, ltb, ◌==◌,
  if◌then◌else◌, arith, Bytes, length, take, replicate, length-take-le, All, All-append,
}
use bw2c.Clib.{decimal, zero_pad, strlen, cstr, cstr_lem, NoNul}
use bw2c.Frame.Objects.{decimal-All-ne}
use bw2c.Frame.{Frame, append_kv, kv_init}
use bw2c.Frame.Length.{frame_length}
use bw2c.Frame.Wire.{IsWireHeader, IsWirePo, IsWireRo, IsWireFrame}
use bw2c.Objects.{Buffer}
use bw2c.Api.Requests.{add}

-- All that a frame with the number `num` needs to have a wire format, but for its length.
pub record IsSendable (num : ℕ) (f : Frame) : Type 0 where
  pub numbered : f.seqno ≡ num
  pub cmd_exact : length f.cmd ≡ 4
  pub hdrs_ok : All IsWireHeader f.hdrs
  pub pos_ok : All IsWirePo f.pos
  pub ros_ok : All IsWireRo f.ros

pub IsSendable-IsWireFrame :
    (num : ℕ) (f : Frame)
    → IsSendable num f
    → num < 2 ^ 31
    → frame_length f < 10 ^ 10
    → IsWireFrame f
IsSendable-IsWireFrame num f s n l = record {
  cmd_exact = s.cmd_exact;
  seqno_nonneg = omega (arith, s.numbered, n);
  length_short = l;
  hdrs_ok = s.hdrs_ok;
  pos_ok = s.pos_ok;
  ros_ok = s.ros_ok;
}

-- A C string that fits.
pub record IsText (s : Bytes) : Type 0 where
  pub no_nul : NoNul s
  pub short : length s < 10 ^ 9

-- A test for the names of headers, which are literals.
abbrev is_word : Bytes → Bool
is_word [] = true
is_word (c ∷ s) = not (c == 0) && (not (c == b' ') && is_word s)

is_word-NoNul : (s : Bytes) → is_word s ≡ true → NoNul s
is_word-NoNul [] h = tt
is_word-NoNul (c ∷ s) h = (ground arith, is_word-NoNul s (ground arith))

is_word-no_space : (s : Bytes) → is_word s ≡ true → All (λ c. c ≢ b' ') s
is_word-no_space [] h = tt
is_word-no_space (c ∷ s) h = (ground arith, is_word-no_space s (ground arith))

pub is_word-IsText : (s : Bytes) → is_word s ≡ true → length s < 10 ^ 9 → IsText s
is_word-IsText s h l = record { no_nul = is_word-NoNul s h; short = l }

-- The header that is made of a text, and of a buffer with its length.
strlen_text : (s : Bytes) → NoNul s → strlen s ≡ length s
unfolding strlen
strlen_text s h = ap length (cstr_lem s h)

add-IsSendable :
    {num : ℕ} (key value : Bytes) (n : ℕ) (f : Frame)
    → (is_word key && ltb (length key) 31) ≡ true
    → (if n == 0 then strlen value else n) ≡ length value
    → length value < 10 ^ 9
    → IsSendable num f
    → IsSendable num (add key value n f)
unfolding add append_kv kv_init
add-IsSendable key value n f k e l s = record {
  numbered = s.numbered;
  cmd_exact = s.cmd_exact;
  hdrs_ok = All-append IsWireHeader f.hdrs (kv_init key value n ∷ []) s.hdrs_ok (
    record {
      no_nul = is_word-NoNul key (ground arith);
      no_space = is_word-no_space key (ground arith);
      key_short = ground arith;
      len_exact = e;
      len_short = ground arith;
    },
    tt,
  );
  pos_ok = s.pos_ok;
  ros_ok = s.ros_ok;
}

pub add_text-IsSendable :
    {num : ℕ} (key value : Bytes) (f : Frame)
    → (is_word key && ltb (length key) 31) ≡ true
    → IsText value
    → IsSendable num f
    → IsSendable num (add key value 0 f)
add_text-IsSendable key value f k t s =
    add-IsSendable key value 0 f k (strlen_text value t.no_nul) t.short s

-- A buffer that is full to its length.
pub record IsBlob (b : Buffer) : Type 0 where
  pub len_exact : b.len ≡ length b.arr
  pub short : b.len < 10 ^ 9

-- The length 0 asks for the length of the C string, which is 0 then.
blob_len : (s : Bytes) (n : ℕ) → n ≡ length s → (if n == 0 then strlen s else n) ≡ length s
unfolding strlen cstr
blob_len [] n e = ground arith
blob_len (c ∷ s) n e = ground arith

pub add_blob-IsSendable :
    {num : ℕ} (key : Bytes) (b : Buffer) (f : Frame)
    → (is_word key && ltb (length key) 31) ≡ true
    → IsBlob b
    → IsSendable num f
    → IsSendable num (add key b.arr b.len f)
add_blob-IsSendable key b f k h s =
    add-IsSendable key b.arr b.len f k (blob_len b.arr b.len h.len_exact)
      (omega (arith, h.len_exact, h.short)) s

-- Digits are no NULs.
take-NoNul : (n : ℕ) (s : Bytes) → NoNul s → NoNul (take n s)
take-NoNul zero s h = tt
take-NoNul (suc n) [] h = tt
take-NoNul (suc n) (c ∷ s) (h, hs) = (h, take-NoNul n s hs)

pub decimal-NoNul : (n : ℕ) → NoNul (decimal n)
decimal-NoNul n = decimal-All-ne 0 n (omega arith)

replicate-NoNul : (n : ℕ) → NoNul (replicate n b'0')
replicate-NoNul zero = tt
replicate-NoNul (suc n) = (λ e. omega arith, replicate-NoNul n)

pub zero_pad-NoNul : (n : ℕ) (s : Bytes) → NoNul s → NoNul (zero_pad n s)
unfolding zero_pad
zero_pad-NoNul n s h =
    All-append (λ c. c ≢ 0) (replicate (n - length s) b'0') s (replicate-NoNul (n - length s)) h

-- The front of a text of digits.
pub take-IsText : (n : ℕ) (s : Bytes) → n < 10 ^ 9 → NoNul s → IsText (take n s)
take-IsText n s lt h = record {
  no_nul = take-NoNul n s h;
  short = omega (arith, length-take-le n s);
}
