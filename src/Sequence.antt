-- ===== src/Sequence.antt =====
-- include/scheduler/sequence.h. The time stamps are left out.
pub mod QuantState
pub mod Examples
use llm_steady_infer.Base.{
  ℕ, zero, suc, ◌+◌, ◌-◌, ◌*◌, ◌/◌, ◌≡◌, Bool, true, false, not, ◌&&◌, ◌||◌, Option, none, some,
  List, [], ◌∷◌, ltb, leb, ◌==◌, if◌then◌else◌, length,
}

pub data SeqState : Type 0 where
  waiting running preempted finished : SeqState

pub record Sequence : Type 0 where
  pub id : ℕ
  pub prompt_tokens : List ℕ
  pub generated_tokens : List ℕ
  pub num_prompt_tokens : ℕ
  pub num_generated_tokens : ℕ
  -- `none` is -1.
  pub kv_slot_id : Option ℕ
  pub num_blocks_allocated : ℕ
  pub state : SeqState
  pub is_finished : Bool
  pub is_prefill_complete : Bool
  pub next_prefill_chunk_start : ℕ
  pub max_gen_len : ℕ
  pub preempt_count : ℕ
  pub k_quantized_tokens : ℕ
  pub k_residual_count : ℕ
  pub prefix_hash_chain : List ℕ

-- state == RUNNING
abbrev pub is_running : Sequence → Bool
is_running s = elim s.state [
  | waiting ↦ false
  | running ↦ true
  | preempted ↦ false
  | finished ↦ false
]

-- state == PREEMPTED
abbrev pub is_preempted : Sequence → Bool
is_preempted s = elim s.state [
  | waiting ↦ false
  | running ↦ false
  | preempted ↦ true
  | finished ↦ false
]

-- The committed length, kv_len.
abbrev pub kv_len : Sequence → ℕ
kv_len s =
    if s.is_prefill_complete
    then s.num_prompt_tokens + s.num_generated_tokens
    else s.next_prefill_chunk_start

unfoldable pub sync_kv_quant_state : ℕ → Sequence → Sequence
sync_kv_quant_state group_size s =
    if group_size == 0
    then record s { k_quantized_tokens = 0; k_residual_count = 0 }
    else let quantized = kv_len s / group_size * group_size in
      record s { k_quantized_tokens = quantized; k_residual_count = kv_len s - quantized }
