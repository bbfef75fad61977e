-- ===== src/Scheduler/Admission.antt =====
-- try_admit_sequences (source/scheduler/scheduler.cpp), with paging.
use llm_steady_infer.Base.{
  ℕ, zero, suc, ◌*◌, Bool, true, false, ◌||◌, Option, none, some, List, [], ◌∷◌, ◌++◌, ltb, leb,
  ◌==◌, if◌then◌else◌, length, min, ◌>>=◌,
}
use llm_steady_infer.BlockAllocator.{
  BlockAllocator, allocate_blocks, reserve_shared_prefix, free_all,
}
use llm_steady_infer.PrefixCache.{PrefixCache, PrefixMatch, lookup, commit_mounted}
use llm_steady_infer.Sequence.{Sequence, running, is_preempted}
use llm_steady_infer.Scheduler.State.{Scheduler, reclaim_fn_of}
use llm_steady_infer.Scheduler.Preemption.{pool_of, with_pool}

abbrev no_match : PrefixMatch
no_match = record { blocks = []; hashes = [] }

-- match after the attempt's lookup; without a cache it stays as it was.
abbrev pub matched_prefix : List ℕ → Option PrefixCache → BlockAllocator → PrefixMatch → PrefixMatch
matched_prefix prompt_tokens none a m = m
matched_prefix prompt_tokens (some c) a m = lookup prompt_tokens a c

-- The attempts, `n` of them: the row and the match of the one that succeeds.
unfoldable pub attempt_admission :
    ℕ → List ℕ → PrefixMatch → Scheduler → Option (Scheduler × Option (ℕ × PrefixMatch))
attempt_admission zero prompt_tokens m s = some (s, none)
attempt_admission (suc n) prompt_tokens m s = do
  ((cache, a), row) ← allocate_blocks (reclaim_fn_of s.prefix_cache) 0 (s.prefix_cache, pool_of s)
  let s₁ = with_pool a (record s { prefix_cache = cache })
  elim row [
    | none ↦ some (s₁, none)
    | some r ↦
        let m' = matched_prefix prompt_tokens cache a m in
        let (a₂, mounted) = reserve_shared_prefix (some r) m'.blocks a in
        elim (length m'.blocks == 0 || mounted) [
          | true ↦ some ((if length m'.blocks == 0 then s₁ else with_pool a₂ s₁), some (r, m'))
          | false ↦ do
            a₃ ← free_all (some r) a₂
            attempt_admission n prompt_tokens m' (with_pool a₃ s₁)
        ]
  ]

abbrev pub commit_if_cached : PrefixMatch → Option PrefixCache → Option PrefixCache
commit_if_cached m none = none
commit_if_cached m (some c) = some (commit_mounted m c)

-- The admitted sequence, with `matched` mounted blocks.
unfoldable pub admitted : ℕ → ℕ → ℕ → Sequence → Sequence
admitted block_size row matched q =
    let owner = record q {
      kv_slot_id = some row;
      num_blocks_allocated = matched;
      state = running;
    } in
    let start = min (matched * block_size) q.num_prompt_tokens in
    if matched == 0 then owner else record owner {
      next_prefill_chunk_start = start;
      is_prefill_complete = leb q.num_prompt_tokens start;
    }

-- The front sequence `q` has been taken off the queue, `rest` is left: it joins the running set.
abbrev pub admit_with : ℕ → PrefixMatch → Sequence → List Sequence → Scheduler → Scheduler
admit_with row m q rest s = record s {
  waiting_queue = rest;
  running_sequences = s.running_sequences ++ admitted s.block_size row (length m.blocks) q ∷ [];
  prefix_cache = commit_if_cached m s.prefix_cache;
}

abbrev pub resume : Sequence → List Sequence → Scheduler → Scheduler
resume q rest s = record s {
  waiting_queue = rest;
  running_sequences = s.running_sequences ++ record q { state = running } ∷ [];
}

-- One round of the loop, for the front sequence; `false` is its `break`.
unfoldable pub admit_front : Sequence → List Sequence → Scheduler → Option (Scheduler × Bool)
admit_front q rest s = elim (is_preempted q) [
  | true ↦ some (resume q rest s, true)
  | false ↦ do
    (s', result) ← attempt_admission 3 q.prompt_tokens no_match s
    elim result [
      | none ↦ some (s', false)
      | some (row, m) ↦ some (admit_with row m q rest s', true)
    ]
]

-- The loop, over the queue as it stands: each round takes the front.
unfoldable pub admit_from : List Sequence → Scheduler → Option Scheduler
admit_from [] s = some s
admit_from (q ∷ rest) s = elim (ltb (length s.running_sequences) s.max_batch_size) [
  | false ↦ some s
  | true ↦ do
    (s', more) ← admit_front q rest s
    elim more [ true ↦ admit_from rest s' | false ↦ some s' ]
]

unfoldable pub try_admit_sequences : Scheduler → Option Scheduler
try_admit_sequences s = admit_from s.waiting_queue s
