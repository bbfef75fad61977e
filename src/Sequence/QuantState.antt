-- ===== src/Sequence/QuantState.antt =====
-- sync_kv_quant_state: how the committed tokens split.
use llm_steady_infer.Base.{ℕ, ◌+◌, ◌*◌, ◌/◌, ◌%◌, ◌≤◌, ◌<◌, ◌≡◌, inl, inr, Bool-cases, ◌==◌, arith}
use llm_steady_infer.Sequence.{Sequence, kv_len, sync_kv_quant_state}

-- The committed tokens are the quantized ones and the residual ones, the quantized ones are whole
-- groups, and the residual ones are fewer than a group.
pub record Split (group_size : ℕ) (s : Sequence) : Type 0 where
  pub sum : s.k_quantized_tokens + s.k_residual_count ≡ kv_len s
  pub whole : s.k_quantized_tokens % group_size ≡ 0
  pub few : s.k_residual_count < group_size

div-bounds : (n d : ℕ) → 0 < d → (n / d * d ≤ n) × (n < n / d * d + d)
div-bounds n d h = (grind arith, grind arith)

mul-mod : (n d : ℕ) → 0 < d → n * d % d ≡ 0
mul-mod n d h = grind arith

-- With a group size, sync_kv_quant_state splits the committed length into whole groups and a
-- remainder below one group.
pub sync_kv_quant_state-Split :
    (group_size : ℕ) (s : Sequence)
    → 0 < group_size
    → Split group_size (sync_kv_quant_state group_size s)
unfolding sync_kv_quant_state
sync_kv_quant_state-Split group_size s h = elim (Bool-cases (group_size == 0)) [
  | inl e ↦ absurd (ground arith)
  | inr e ↦ rw e (record {
    sum = omega (arith, div-bounds (kv_len s) group_size h);
    whole = mul-mod (kv_len s / group_size) group_size h;
    few = omega (arith, div-bounds (kv_len s) group_size h);
  })
]
