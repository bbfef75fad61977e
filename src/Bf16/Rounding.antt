-- ===== src/Bf16/Rounding.antt =====
-- Widening and narrowing a bfloat16.
use llm_steady_infer.Base.{ℕ, ◌+◌, ◌*◌, ◌%◌, ◌≤◌, ◌<◌, ◌≡◌, refl, List, [], ◌∷◌, All, arith}
use llm_steady_infer.Bf16.{
  bf16_limit, fp32_limit, fp32_to_bf16, bf16_to_fp32, fp32_to_bf16_batch, bf16_to_fp32_batch,
}

round_trip : (b : ℕ) → b < bf16_limit → fp32_to_bf16 (bf16_to_fp32 b) ≡ b
unfolding fp32_to_bf16 bf16_to_fp32
round_trip b h = omega (arith, h)

-- A batch of bf16 patterns, each of 16 bits, that is widened and narrowed again is the same batch:
-- every pattern, NaNs, infinities and subnormal numbers included, survives.
pub batch_round_trip :
    (bs : List ℕ) → All (λ b. b < bf16_limit) bs → fp32_to_bf16_batch (bf16_to_fp32_batch bs) ≡ bs
unfolding fp32_to_bf16_batch bf16_to_fp32_batch
batch_round_trip [] h = refl
batch_round_trip (b ∷ bs) h = cc (round_trip b h.0, batch_round_trip bs h.1)

-- The distance of two patterns of one sign is the number of fp32 values between them.
pub record Nearest (u r : ℕ) : Type 0 where
  pub fits : r < bf16_limit
  pub not_above : r * bf16_limit ≤ u + 32768
  pub not_below : u ≤ r * bf16_limit + 32768
  pub even_on_tie : (u % bf16_limit ≡ 32768) → r % 2 ≡ 0

-- For a pattern that does not carry out of the 32 bits, the narrowed pattern is one of the nearest,
-- and the even one of two that are equally near.
pub fp32_to_bf16-Nearest : (u : ℕ) → u + 32768 < fp32_limit → Nearest u (fp32_to_bf16 u)
unfolding fp32_to_bf16
fp32_to_bf16-Nearest u h = record {
  fits = omega (arith, h);
  not_above = omega (arith, h);
  not_below = omega (arith, h);
  even_on_tie = λ tie. omega (arith, h, tie);
}
