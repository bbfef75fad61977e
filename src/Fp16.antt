-- ===== src/Fp16.antt =====
-- fp16_to_fp32 of source/model/safetensors_reader.cpp, on bit patterns. The operands of each | have
-- no bit in common, and are added; a shift to the left is a product.
pub mod Normalizing
pub mod Widening
pub mod Examples
use llm_steady_infer.Base.{
  ℕ, zero, suc, ◌+◌, ◌-◌, ◌*◌, ◌/◌, ◌%◌, Bool, true, false, Option, none, some, ◌==◌, ◌>>=◌,
}

-- The loop on a subnormal number, on fuel: how often the mantissa is shifted, which is e + 1, and
-- the shifted mantissa.
unfoldable pub normalize : ℕ → ℕ → ℕ → Option (ℕ × ℕ)
normalize zero shifts mant = none
normalize (suc fuel) shifts mant = elim (mant * 2 / 1024 % 2 == 0) [
  | true ↦ normalize fuel (shifts + 1) (mant * 2)
  | false ↦ some (shifts + 1, mant * 2)
]

abbrev pub fields : ℕ → ℕ → ℕ → ℕ
fields sign exponent mant = sign * 2147483648 + (exponent * 8388608 + mant * 8192)

-- Ten shifts are enough for ten bits.
unfoldable pub fp16_to_fp32 : ℕ → Option ℕ
fp16_to_fp32 h =
    let sign = h / 32768 % 2 in
    let exp = h / 1024 % 32 in
    let mant = h % 1024 in
    elim (exp == 0) [
      | true ↦ elim (mant == 0) [
        | true ↦ some (fields sign 0 0)
        | false ↦ normalize 10 0 mant >>= λ (shifts, m).
            some (fields sign (127 - 15 - (shifts - 1)) (m % 1024))
      ]
      | false ↦ elim (exp == 31) [
        | true ↦ some (fields sign 255 mant)
        | false ↦ some (fields sign (exp + 127 - 15) mant)
      ]
    ]
