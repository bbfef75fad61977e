-- ===== src/Sequence/Examples.antt =====
-- A sequence with thirteen committed tokens.
use llm_steady_infer.Base.{◌≡◌, refl, false, some, [], arith}
use llm_steady_infer.Sequence.{Sequence, running, sync_kv_quant_state}
use llm_steady_infer.Sequence.QuantState.{Split, sync_kv_quant_state-Split}

abbrev prefilling : Sequence
prefilling = record {
  id = 0;
  prompt_tokens = [];
  generated_tokens = [];
  num_prompt_tokens = 20;
  num_generated_tokens = 0;
  kv_slot_id = some 0;
  num_blocks_allocated = 2;
  state = running;
  is_finished = false;
  is_prefill_complete = false;
  next_prefill_chunk_start = 13;
  max_gen_len = 4;
  preempt_count = 0;
  k_quantized_tokens = 0;
  k_residual_count = 0;
  prefix_hash_chain = [];
}

sync_kv_quant_state-Split_example : Split 8 (sync_kv_quant_state 8 prefilling)
sync_kv_quant_state-Split_example = sync_kv_quant_state-Split 8 prefilling (omega arith)

five_residual : (sync_kv_quant_state 8 prefilling).k_residual_count ≡ 5
unfolding sync_kv_quant_state
five_residual = refl
