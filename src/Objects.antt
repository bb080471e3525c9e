-- ===== src/Objects.antt =====
-- objects.h and objects.c: fixed buffers with the number of bytes that are used.
use Prim.Native.Nat.{min}
use bw2c.Base.{ℕ, Bytes, take}

-- BW2_OBJECTS_MAX_*
abbrev pub max_subscription_handle_length : ℕ
max_subscription_handle_length = 30

abbrev pub max_vk_length : ℕ
max_vk_length = 100

abbrev pub max_vk_hash_length : ℕ
max_vk_hash_length = 100

abbrev pub max_dot_length : ℕ
max_dot_length = 100

abbrev pub max_dot_hash_length : ℕ
max_dot_hash_length = 100

abbrev pub max_dot_chain_hash_length : ℕ
max_dot_chain_hash_length = 100

-- The six structs differ in their names and sizes: the bytes in use, and their number.
pub record Buffer : Type 0 where
  pub arr : Bytes
  pub len : ℕ

-- `memcpy` of the bytes that fit, out of a blob of `bloblen` bytes.
set_buffer : (cap : ℕ) (blob : Bytes) (bloblen : ℕ) → Buffer
set_buffer cap blob bloblen = record { arr = take (min bloblen cap) blob; len = min bloblen cap }

unfoldable pub subscription_handle_set : Bytes → ℕ → Buffer
unfolding set_buffer
subscription_handle_set = set_buffer max_subscription_handle_length

unfoldable pub vk_set : Bytes → ℕ → Buffer
unfolding set_buffer
vk_set = set_buffer max_vk_length

unfoldable pub vk_hash_set : Bytes → ℕ → Buffer
unfolding set_buffer
vk_hash_set = set_buffer max_vk_hash_length

unfoldable pub dot_set : Bytes → ℕ → Buffer
unfolding set_buffer
dot_set = set_buffer max_dot_length

unfoldable pub dot_hash_set : Bytes → ℕ → Buffer
unfolding set_buffer
dot_hash_set = set_buffer max_dot_hash_length

unfoldable pub dot_chain_hash_set : Bytes → ℕ → Buffer
unfolding set_buffer
dot_chain_hash_set = set_buffer max_dot_chain_hash_length
