-- ===== src/Frame/Faults.antt =====
-- Where `bw2_readFrame` follows a null pointer: a token that fills its buffer, and, in HeapFull, an object that
-- the frame heap has no room for.
pub mod HeapFull
use bw2c.Base.{
  ℕ, zero, suc, ◌+◌, ◌≤◌, ◌<◌, ◌≡◌, ◌≢◌, refl, sym, ◌∙◌, ap, true, false, [], ◌∷◌, ◌++◌,
  append_assoc, append-nil, Option, arith, ne→==, Bytes, length, All,
}
use bw2c.Run.{ok, fault, Cmd, ◌>>=◌, and_then}
use bw2c.Run.Reads.{Reads}
use bw2c.Clib.{decimal}
use bw2c.Os.{Source, bytes}
use bw2c.Utils.Reading.{array_full, receive, read_until_char, drop_until_char}
use bw2c.Utils.Reads.{receive-Reads}
use bw2c.Frame.Read.{read_token, read_kv}
use bw2c.Frame.Wire.{object, token}

-- What follows the name of an object.
abbrev lengthed : Bytes → Bytes
lengthed body = token (decimal (length body)) b'\n' ++ token body b'\n'

module _ (os : Source) where
  open os use {State, incoming}

  -- A buffer that is filled before the delimiter comes.
  read_until_char-full :
      (until : ℕ) (key : Bytes)
      → All (λ c. c ≢ until) key
      → Reads os key (read_until_char os (length key) until) (array_full, key)
  unfolding read_until_char
  read_until_char-full until [] a s rest e = (s, refl, e)
  read_until_char-full until (c ∷ key) a s rest e =
      let (s₁, got, left) = receive-Reads os c s (key ++ rest) e in
      let (s₂, more, done) = read_until_char-full until key a.1 s₁ rest left in
      (s₂, rw (got, ne→== c until a.0, more), done)

  -- A token that fills its buffer without the delimiter, one more byte of it being there, makes `read_token`
  -- follow the null pointer that it passes for `bytesread`.
  pub read_token-overlong :
      (d : ℕ) (key : Bytes) (c : ℕ) (rest : Bytes) (s : State)
      → All (λ b. b ≢ d) key
      → incoming s ≡ key ++ c ∷ rest
      → read_token os (suc (length key)) d s ≡ fault
  unfolding read_token drop_until_char
  read_token-overlong d key c rest s clean i =
      let (s₁, e₁, i₁) = read_until_char-full d key clean s (c ∷ rest) i in
      let (s₂, e₂, i₂) = receive-Reads os c s₁ rest i₁ in rw (e₁, e₂) refl

  -- A key of 31 bytes and more, read by `bw2_read_KV`.
  next_byte :
      (k₁ k₂ : Bytes) (d : ℕ) (more : Bytes)
      → (c : ℕ) × (r : Bytes) × ((k₁ ++ k₂) ++ d ∷ more ≡ k₁ ++ c ∷ r)
  next_byte k₁ [] d more = (d, more, rw append-nil)
  next_byte k₁ (c ∷ k₂) d more = (c, k₂ ++ d ∷ more, append_assoc k₁ (c ∷ k₂) (d ∷ more))

  regroup :
      (k : Bytes) (d : ℕ) (xs rest : Bytes) → ((k ++ d ∷ []) ++ xs) ++ rest ≡ k ++ d ∷ (xs ++ rest)
  regroup k d xs rest = append_assoc (k ++ d ∷ []) xs rest ∙ append_assoc k (d ∷ []) (xs ++ rest)

  -- A header whose key has 31 bytes and more, which is a key that fits the buffer of BW2_FRAME_MAX_KEY_LENGTH + 1
  -- bytes when it has exactly 31, makes `bw2_read_KV` follow a null pointer, whatever the frame heap.
  pub read_kv-long_key :
      (k₁ k₂ value rest : Bytes) (heap : Option ℕ) (used : ℕ) (s : State)
      → length k₁ ≡ 31
      → All (λ b. b ≢ b' ') k₁
      → incoming s ≡ object (k₁ ++ k₂) value ++ rest
      → read_kv os heap used s ≡ fault
  unfolding read_kv
  read_kv-long_key k₁ k₂ value rest heap used s len clean i =
      let (c, r, e) = next_byte k₁ k₂ b' ' (lengthed value ++ rest) in
      let f : read_token os 32 b' ' s ≡ fault = rw len at (
        read_token-overlong b' ' k₁ c r s clean
          (i ∙ regroup (k₁ ++ k₂) b' ' (lengthed value) rest ∙ e)) in
      rw f refl
