-- ===== src/PrefixCache/Hash.antt =====
-- PrefixCache::block_hash: FNV-1a on 64 bits.
use Prim.Native.Nat.{bit_xor}
use llm_steady_infer.Base.{ℕ, ◌*◌, ◌/◌, ◌%◌, ◌^◌, List, [], ◌∷◌}

abbrev pub u64_mod : ℕ
u64_mod = 2 ^ 64

abbrev fnv_offset : ℕ
fnv_offset = 14695981039346656037

abbrev fnv_prime : ℕ
fnv_prime = 1099511628211

-- h ^= (t >> shift) & 0xFF; h *= prime
fold_byte : ℕ → ℕ → ℕ
fold_byte byte h = bit_xor h byte * fnv_prime % u64_mod

-- The four bytes of a token, as a uint32_t, the lowest first.
fold_token : ℕ → ℕ → ℕ
unfolding fold_byte
fold_token token h =
    let t = token % 2 ^ 32 in
    fold_byte (t / 2 ^ 24 % 256)
      (fold_byte (t / 2 ^ 16 % 256) (fold_byte (t / 2 ^ 8 % 256) (fold_byte (t % 256) h)))

fold_tokens : List ℕ → ℕ → ℕ
fold_tokens [] h = h
fold_tokens (t ∷ ts) h = fold_tokens ts (fold_token t h)

unfoldable pub block_hash : ℕ → List ℕ → ℕ
unfolding fold_tokens fold_token
block_hash prev_hash tokens = fold_tokens tokens (bit_xor fnv_offset prev_hash)
