-- ===== src/Protocol/Codec.antt =====
-- The third-party functions that the protocol's hashes and byte forms are built from. `J` is
-- `serde_json::Value`.
use threshold.Prelude.{ℕ, ◌<◌, ◌≡◌, Option, some, ◌++◌, Bytes, Text, u32_mod, u64_mod}

pub record Codec (J : Type 0) : Type 0 where
  -- sha2: the digest of all bytes that the hasher was updated with, in order
  pub sha256 : Bytes → Bytes
  -- bincode's standard configuration: the integers
  pub encode_u32 : ℕ → Bytes
  pub decode_u32 : Bytes → Option (ℕ × Bytes)
  pub encode_u64 : ℕ → Bytes
  pub decode_u64 : Bytes → Option (ℕ × Bytes)
  -- serde_json: `to_string` of a value and of an optional value, and `from_str`
  pub value_to_string : J → Text
  pub option_to_string : Option J → Text
  pub option_from_str : Text → Option (Option J)

-- What bincode documents of its integers: reading back what was written leaves the rest.
pub record ReadsBack {J : Type 0} (c : Codec J) : Type 0 where
  pub u32_back :
      (n : ℕ) (rest : Bytes) → n < u32_mod → c.decode_u32 (c.encode_u32 n ++ rest) ≡ some (n, rest)
  pub u64_back :
      (n : ℕ) (rest : Bytes) → n < u64_mod → c.decode_u64 (c.encode_u64 n ++ rest) ≡ some (n, rest)
