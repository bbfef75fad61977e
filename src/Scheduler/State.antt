-- ===== src/Scheduler/State.antt =====
-- The scheduler's state, add_request, retire_finished and the small functions
-- (include/scheduler/scheduler.h, source/scheduler/scheduler.cpp).
pub mod Requests
pub mod History
pub mod Hook
use llm_steady_infer.Base.{
  ℕ, zero, suc, ◌+◌, ◌-◌, ◌*◌, ◌/◌, ◌≡◌, Bool, true, false, not, ◌&&◌, ◌||◌, Option, none, some,
  List, [], ◌∷◌, ◌++◌, ltb, leb, ◌==◌, if◌then◌else◌, length, drop, min, get_elem?, ◌>>=◌,
}
use llm_steady_infer.BlockAllocator.{BlockAllocator, ReclaimFn}
use llm_steady_infer.KvManager.{KvManager}
use llm_steady_infer.PrefixCache.{PrefixCache}
use llm_steady_infer.PrefixCache.Eviction.{reclaim_hook}
use llm_steady_infer.Sequence.{Sequence, SeqState, waiting}

pub record Scheduler : Type 0 where
  pub kv_manager : KvManager
  pub prefix_cache : Option PrefixCache
  -- The indices in `running_sequences` of the sequences that batch_row_seqs_ points at.
  pub batch_row_seqs : List ℕ
  pub waiting_queue : List Sequence
  pub running_sequences : List Sequence
  pub finished_sequences : List Sequence
  pub finished_history_limit : ℕ
  pub finished_total : ℕ
  pub finished_evicted : ℕ
  pub finished_evict_warned : Bool
  pub decode_rows_per_step : List ℕ
  pub max_batch_size : ℕ
  pub max_seq_len : ℕ
  pub max_gen_len : ℕ
  pub next_seq_id : ℕ
  pub block_size : ℕ

-- The lambda that the constructor registers with set_reclaim_fn, if there is a cache.
pub reclaim_prefix_cache : ReclaimFn (Option PrefixCache)
reclaim_prefix_cache needed none a = some (none, a)
reclaim_prefix_cache needed (some c) a = do (c', a') ← reclaim_hook needed c a; some (some c', a')

abbrev pub reclaim_fn_of : Option PrefixCache → Option (ReclaimFn (Option PrefixCache))
reclaim_fn_of none = none
reclaim_fn_of (some c) = some reclaim_prefix_cache

pub resolve_block_size : ℕ → ℕ
resolve_block_size avg_prompt_len =
    if ltb avg_prompt_len 64 then 8 else if ltb 1024 avg_prompt_len then 32 else 16

abbrev pub k_prefill_row_reserve : ℕ
k_prefill_row_reserve = 512

abbrev pub row_cap_for : ℕ → ℕ
row_cap_for max_batch_size = max_batch_size + k_prefill_row_reserve

abbrev pub at_least_one : ℕ → ℕ
at_least_one zero = 1
at_least_one (suc n) = suc n

-- The sequence that add_request builds.
abbrev pub new_sequence : ℕ → List ℕ → ℕ → Sequence
new_sequence id prompt_tokens max_gen_len = record {
  id = id;
  prompt_tokens = prompt_tokens;
  generated_tokens = [];
  num_prompt_tokens = length prompt_tokens;
  num_generated_tokens = 0;
  kv_slot_id = none;
  num_blocks_allocated = 0;
  state = waiting;
  is_finished = false;
  is_prefill_complete = false;
  next_prefill_chunk_start = 0;
  max_gen_len = max_gen_len;
  preempt_count = 0;
  k_quantized_tokens = 0;
  k_residual_count = 0;
  prefix_hash_chain = [];
}

-- The result is the id, `none` for -1. A rejected request has used up its id.
unfoldable pub add_request : List ℕ → Scheduler → Scheduler × Option ℕ
add_request prompt_tokens s =
    let numbered = record s { next_seq_id = s.next_seq_id + 1 } in
    let num_prompt_tokens = length prompt_tokens in
    if num_prompt_tokens == 0
    then (numbered, none)
    else if leb s.max_seq_len num_prompt_tokens
    then (numbered, none)
    else let avail = s.max_seq_len - num_prompt_tokens in
      let seq = new_sequence s.next_seq_id prompt_tokens (at_least_one (min s.max_gen_len avail)) in
      (record numbered { waiting_queue = s.waiting_queue ++ seq ∷ [] }, some s.next_seq_id)

unfoldable pub retire_finished : Sequence → Scheduler → Scheduler
retire_finished seq s =
    let retired = s.finished_sequences ++ seq ∷ [] in
    let s' = record s { finished_sequences = retired; finished_total = s.finished_total + 1 } in
    if s.finished_history_limit == 0 || leb (length retired) s.finished_history_limit
    then s'
    else let keep = s.finished_history_limit - s.finished_history_limit / 4 in
      let dropped = length retired - keep in
      record s' {
        finished_sequences = drop dropped retired;
        finished_evicted = s.finished_evicted + dropped;
        finished_evict_warned = true;
      }

pub all_finished : Scheduler → Bool
all_finished s = length s.waiting_queue == 0 && length s.running_sequences == 0
