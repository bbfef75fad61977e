-- ===== src/Bf16.antt =====
-- include/base/bf16_utils.h, on bit patterns: a float is the 32-bit word that memcpy reads from it.
pub mod Rounding
pub mod Examples
use llm_steady_infer.Base.{ℕ, ◌+◌, ◌*◌, ◌/◌, ◌%◌, List, map}

-- 2 ^ 16 and 2 ^ 32
abbrev pub bf16_limit : ℕ
bf16_limit = 65536

abbrev pub fp32_limit : ℕ
fp32_limit = 4294967296

unfoldable pub fp32_to_bf16 : ℕ → ℕ
fp32_to_bf16 u =
    let lsb = (u / bf16_limit) % 2 in ((u + (32767 + lsb)) % fp32_limit / bf16_limit) % bf16_limit

unfoldable pub bf16_to_fp32 : ℕ → ℕ
bf16_to_fp32 bits = (bits * bf16_limit) % fp32_limit

unfoldable pub fp32_to_bf16_batch : List ℕ → List ℕ
fp32_to_bf16_batch src = map fp32_to_bf16 src

unfoldable pub bf16_to_fp32_batch : List ℕ → List ℕ
bf16_to_fp32_batch src = map bf16_to_fp32 src
