-- ===== src/Fp16/Examples.antt =====
-- The smallest subnormal half-precision number, and 1.0.
use llm_steady_infer.Base.{◌≡◌, refl, some, Returns, arith}
use llm_steady_infer.Fp16.{normalize, fp16_to_fp32}
use llm_steady_infer.Fp16.Widening.{Widened, fp16_to_fp32-Widened}

fp16_to_fp32-Widened_example : Returns (fp16_to_fp32 1) (Widened 1)
fp16_to_fp32-Widened_example = fp16_to_fp32-Widened 1 (omega arith)

widened_one : fp16_to_fp32 15360 ≡ some 1065353216
unfolding fp16_to_fp32 normalize
widened_one = refl

widened_smallest : fp16_to_fp32 1 ≡ some 864026624
unfolding fp16_to_fp32 normalize
widened_smallest = refl
