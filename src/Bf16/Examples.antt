-- ===== src/Bf16/Examples.antt =====
-- A batch with 1.0, -2.0, an infinity, a NaN and a subnormal number.
use llm_steady_infer.Base.{ℕ, ◌≡◌, refl, List, [], ◌∷◌, arith}
use llm_steady_infer.Bf16.{fp32_to_bf16, fp32_to_bf16_batch, bf16_to_fp32_batch}
use llm_steady_infer.Bf16.Rounding.{batch_round_trip}

abbrev batch : List ℕ
batch = 16256 ∷ 49152 ∷ 32640 ∷ 32704 ∷ 1 ∷ []

batch_round_trip_example : fp32_to_bf16_batch (bf16_to_fp32_batch batch) ≡ batch
batch_round_trip_example =
    batch_round_trip batch
      (omega arith, (omega arith, (omega arith, (omega arith, (omega arith, tt)))))

-- The NaN 0x7fffffff comes out as 0x8000, which is minus zero.
narrowed_nan : fp32_to_bf16 2147483647 ≡ 32768
unfolding fp32_to_bf16
narrowed_nan = refl
