-- ===== src/Scheduler/Preemption.antt =====
-- try_preempt_for, truncate_sequence, flush_preempted and ensure_blocks_for
-- (source/scheduler/scheduler.cpp).
pub mod Truncation
pub mod Flush
pub mod Planning
pub mod Cutting
pub mod Freeing
pub mod OneBlock
pub mod Rounds
pub mod Ensuring
use llm_steady_infer.Base.{
  ℕ, zero, suc, ◌+◌, ◌-◌, ◌*◌, ◌/◌, ◌≡◌, Bool, true, false, not, ◌&&◌, ◌||◌, Option, none, some,
  List, [], ◌∷◌, ◌++◌, reverse, ltb, leb, ◌==◌, if◌then◌else◌, length, take, set, min, get_elem?,
  ◌>>=◌,
}
use llm_steady_infer.BlockAllocator.{
  BlockAllocator, append_blocks, free_blocks_from, reclaimable_blocks_from, free_block_count,
}
use llm_steady_infer.PrefixCache.{PrefixCache}
use llm_steady_infer.Sequence.{Sequence, preempted, is_running, is_preempted, sync_kv_quant_state}
use llm_steady_infer.Scheduler.State.{Scheduler, reclaim_fn_of}

abbrev pub pool_of : Scheduler → BlockAllocator
pool_of s = s.kv_manager.block_allocator

abbrev pub with_pool : BlockAllocator → Scheduler → Scheduler
with_pool a s = record s { kv_manager = record s.kv_manager { block_allocator = a } }

abbrev pub with_running : ℕ → Sequence → Scheduler → Scheduler
with_running i q s = record s { running_sequences = set s.running_sequences i q }

-- What truncate_sequence does to the sequence.
unfoldable pub truncated : ℕ → ℕ → ℕ → Sequence → Sequence
truncated block_size group_size keep_blocks q =
    let trunc_pos = keep_blocks * block_size in
    let shortened = record q {
      preempt_count = q.preempt_count + 1;
      num_blocks_allocated = keep_blocks;
      prefix_hash_chain = take keep_blocks q.prefix_hash_chain;
    } in
    let keep_gen = trunc_pos - q.num_prompt_tokens in
    let cut =
      if ltb trunc_pos q.num_prompt_tokens
      then record shortened {
        next_prefill_chunk_start = trunc_pos;
        is_prefill_complete = false;
        generated_tokens = [];
        num_generated_tokens = 0;
      }
      else if ltb keep_gen (length q.generated_tokens)
      then record shortened {
        generated_tokens = take keep_gen q.generated_tokens;
        num_generated_tokens = keep_gen;
      }
      else shortened in
    record (sync_kv_quant_state group_size cut) { state = preempted }

-- `i` is the sequence's index in running_sequences_.
unfoldable pub truncate_sequence : ℕ → ℕ → Scheduler → Option Scheduler
truncate_sequence i keep_blocks s = do
  q ← get_elem? s.running_sequences i
  a ← free_blocks_from q.kv_slot_id keep_blocks (pool_of s)
  some (
      with_running i (truncated s.block_size s.kv_manager.group_size keep_blocks q) (with_pool a s))

abbrev pub k_preempt_defer_threshold : ℕ
k_preempt_defer_threshold = 2

abbrev pub indexed : ℕ → List Sequence → List (ℕ × Sequence)
indexed i [] = []
indexed i (q ∷ qs) = (i, q) ∷ indexed (i + 1) qs

abbrev pub elem_of : ℕ → List ℕ → Bool
elem_of i [] = false
elem_of i (x ∷ xs) = x == i || elem_of i xs

abbrev pub already_victim : ℕ → List (ℕ × ℕ) → Bool
already_victim i [] = false
already_victim i ((j, keep) ∷ vs) = j == i || already_victim i vs

abbrev prompt_blocks_of : ℕ → Sequence → ℕ
prompt_blocks_of block_size q = (q.num_prompt_tokens + block_size - 1) / block_size

abbrev pub keep_floor_of : ℕ → Bool → Sequence → ℕ
keep_floor_of block_size first_phase q =
    if first_phase && q.is_prefill_complete
    then min (prompt_blocks_of block_size q) q.num_blocks_allocated
    else 1

-- The `continue`s of the walk that look at the sequence alone.
abbrev pub eligible : Scheduler → ℕ → Bool → ℕ → Sequence → List (ℕ × ℕ) → Bool
eligible s skip_seq_id second_pass i q victims =
    not (q.id == skip_seq_id)
    && is_running q
    && not (elem_of i s.batch_row_seqs)
    && not (already_victim i victims)
    && (if second_pass
        then leb k_preempt_defer_threshold q.preempt_count
        else not (leb k_preempt_defer_threshold q.preempt_count))

-- One round of the walk: `needed` blocks are missing, `victims` are planned.
unfoldable pub plan_one :
    Scheduler → ℕ → Bool → Bool → ℕ × Sequence → ℕ × List (ℕ × ℕ) → ℕ × List (ℕ × ℕ)
plan_one s skip_seq_id first_phase second_pass (i, q) (needed, victims) =
    if needed == 0 || not (eligible s skip_seq_id second_pass i q victims)
    then (needed, victims)
    else let keep_floor = keep_floor_of s.block_size first_phase q in
      let gain_from : ℕ → ℕ = λ start. reclaimable_blocks_from q.kv_slot_id start (pool_of s) in
      let max_take = min (q.num_blocks_allocated - keep_floor) (gain_from keep_floor) in
      let shallow = q.num_blocks_allocated - min max_take needed in
      let keep = if gain_from shallow == 0 then keep_floor else shallow in
      if max_take == 0 || gain_from keep == 0
      then (needed, victims)
      else (needed - gain_from keep, victims ++ (i, keep) ∷ [])

unfoldable pub plan_walk :
    Scheduler → ℕ → Bool → Bool → List (ℕ × Sequence) → ℕ × List (ℕ × ℕ) → ℕ × List (ℕ × ℕ)
plan_walk s skip_seq_id first_phase second_pass [] p = p
plan_walk s skip_seq_id first_phase second_pass (q ∷ qs) p =
    plan_walk s skip_seq_id first_phase second_pass qs
      (plan_one s skip_seq_id first_phase second_pass q p)

-- The two phases, each of two passes, from the newest sequence to the oldest.
unfoldable pub plan : Scheduler → ℕ → ℕ → ℕ × List (ℕ × ℕ)
plan s skip_seq_id needed =
    let newest_first = reverse (indexed 0 s.running_sequences) in
    let walk : Bool → Bool → ℕ × List (ℕ × ℕ) → ℕ × List (ℕ × ℕ) =
      λ first_phase second_pass. plan_walk s skip_seq_id first_phase second_pass newest_first in
    walk false true (walk false false (walk true true (walk true false (needed, []))))

unfoldable pub truncate_all : List (ℕ × ℕ) → Scheduler → Option Scheduler
truncate_all [] s = some s
truncate_all ((i, keep) ∷ vs) s = do s' ← truncate_sequence i keep s; truncate_all vs s'

unfoldable pub try_preempt_for : ℕ → ℕ → Scheduler → Option (Scheduler × Bool)
try_preempt_for need_blocks skip_seq_id s =
    let missing = need_blocks - free_block_count (pool_of s) in
    if missing == 0
    then some (s, true)
    else let (needed, victims) = plan s skip_seq_id missing in
      if ltb 0 needed then some (s, false) else (do s' ← truncate_all victims s; some (s', true))

abbrev pub preempted_of : List Sequence → List Sequence
preempted_of [] = []
preempted_of (q ∷ qs) = if is_preempted q then q ∷ preempted_of qs else preempted_of qs

abbrev pub not_preempted_of : List Sequence → List Sequence
not_preempted_of [] = []
not_preempted_of (q ∷ qs) = if is_preempted q then not_preempted_of qs else q ∷ not_preempted_of qs

-- push_front of each, in this order.
abbrev pub push_front_all : List Sequence → List Sequence → List Sequence
push_front_all [] waiting = waiting
push_front_all (q ∷ qs) waiting = push_front_all qs (q ∷ waiting)

unfoldable pub flush_preempted : Scheduler → Scheduler
flush_preempted s = record s {
  waiting_queue = push_front_all (reverse (preempted_of s.running_sequences)) s.waiting_queue;
  running_sequences = not_preempted_of s.running_sequences;
}

-- grown <= seq->num_blocks_allocated; a failed call is below every count.
abbrev pub not_grown : Option ℕ → ℕ → Bool
not_grown none allocated = true
not_grown (some grown) allocated = leb grown allocated

abbrev pub grown_or : ℕ → Option ℕ → ℕ
grown_or d none = d
grown_or d (some grown) = grown

-- The loop of ensure_blocks_for, on fuel.
unfoldable pub grow_to : ℕ → ℕ → ℕ → Scheduler → Option (Scheduler × Bool)
grow_to zero needed i s = none
grow_to (suc fuel) needed i s = do
  q ← get_elem? s.running_sequences i
  elim (leb needed q.num_blocks_allocated) [
    | true ↦ some (s, true)
    | false ↦ do
      ((cache, a), grown) ←
          append_blocks (reclaim_fn_of s.prefix_cache) q.kv_slot_id 1 (s.prefix_cache, pool_of s)
      let s₁ = with_pool a (record s { prefix_cache = cache })
      elim (not_grown grown q.num_blocks_allocated) [
        | false ↦ grow_to fuel needed i (
            with_running i
              (record q { num_blocks_allocated = grown_or q.num_blocks_allocated grown }) s₁)
        | true ↦ do
          (s₂, freed) ← try_preempt_for (needed - q.num_blocks_allocated) q.id s₁
          elim freed [ true ↦ grow_to fuel needed i s₂ | false ↦ some (s₂, false) ]
      ]
  ]

unfoldable pub ensure_blocks_for : ℕ → ℕ → Scheduler → Option (Scheduler × Bool)
ensure_blocks_for i position s =
    let needed = position / s.block_size + 1 in
    if ltb s.kv_manager.max_blocks_per_seq needed
    then some (s, false)
    else grow_to (2 * needed + 1) needed i s
