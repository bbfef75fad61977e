-- ===== src/Scheduler/Examples.antt =====
-- The scheduler's theorems at small schedules, and runs of it.
use llm_steady_infer.Base.{
  ◌==◌, ℕ, zero, suc, ◌+◌, ◌/◌, ◌≡◌, ap, sym, ◌∙◌, get_elem?, ◌⊎◌, inr, refl, Bool, true, false,
  none, some, List, [], ◌∷◌, ◌++◌, Returns, arith,
}
use llm_steady_infer.BlockAllocator.Samples.{busy_pool, busy_pool-Inv}
use mathlib.Core.Option.{some-injective}
use llm_steady_infer.KvManager.{KvManager}
use llm_steady_infer.Sequence.{Sequence, running, finished, is_running}
use llm_steady_infer.Scheduler.State.{Scheduler, new_sequence, add_request, retire_finished}
use llm_steady_infer.Scheduler.State.Requests.{Rejected, Accepted, add_request-outcome}
use llm_steady_infer.Scheduler.State.History.{HistoryOk, retire_finished-HistoryOk}
use llm_steady_infer.Scheduler.Preemption.{
  truncated, plan, flush_preempted, try_preempt_for, ensure_blocks_for,
}
use llm_steady_infer.Scheduler.Preemption.Cutting.{RowsOk}
use llm_steady_infer.Scheduler.Preemption.Freeing.{Preempted, try_preempt_for-Preempted}
use llm_steady_infer.Scheduler.Preemption.OneBlock.{Ensured}
use llm_steady_infer.Scheduler.Preemption.Ensuring.{Ready, ensure_blocks_for-Ensured}
use llm_steady_infer.Scheduler.Preemption.Planning.{Planned, plan-Planned}
use llm_steady_infer.Scheduler.Preemption.Truncation.{Cut, truncated-Cut}
use llm_steady_infer.Scheduler.Preemption.Flush.{Flushed, flush_preempted-Flushed}
use llm_steady_infer.Scheduler.Batch.{BatchRow, pending_prefills, prefill_order}
use llm_steady_infer.Scheduler.Batch.PrefillOrder.{shorts, longs, prefill_order-partition}
use llm_steady_infer.Scheduler.Execution.{Model, row_starts, force_finish_all, update_sequences}
use llm_steady_infer.Scheduler.Execution.Staging.{RowMap, row_starts-RowMap}
use llm_steady_infer.Scheduler.Execution.Retirement.{Retired, force_finish_all-Retired}
use llm_steady_infer.Scheduler.Execution.Done.{Updated}
use llm_steady_infer.Scheduler.Execution.Updating.{update_sequences-Updated}

abbrev manager : KvManager
manager = record {
  num_layers = 1;
  max_batch = 2;
  max_seq_len = 12;
  kv_dim = 8;
  kv_head_num = 1;
  paged = true;
  kv_quant = 1;
  block_size = 4;
  max_blocks_per_seq = 3;
  num_blocks = 6;
  block_allocator = busy_pool;
  group_size = 4;
  channel_group = 8;
  groups_per_block = 1;
  channel_groups = 1;
}

-- A sequence with a prompt of three tokens that has generated three more.
abbrev decoding : Sequence
decoding = record (new_sequence 0 (1 ∷ 2 ∷ 3 ∷ []) 5) {
  generated_tokens = 4 ∷ 5 ∷ 6 ∷ [];
  num_generated_tokens = 3;
  kv_slot_id = some 0;
  num_blocks_allocated = 2;
  state = running;
  is_prefill_complete = true;
  next_prefill_chunk_start = 3;
}

-- One that build_batch_rows has given up.
abbrev given_up : Sequence
given_up = record (new_sequence 1 (7 ∷ []) 2) { is_finished = true; state = finished }

abbrev schedule : Scheduler
schedule = record {
  kv_manager = manager;
  prefix_cache = none;
  batch_row_seqs = [];
  waiting_queue = [];
  running_sequences = decoding ∷ given_up ∷ [];
  finished_sequences = [];
  finished_history_limit = 4;
  finished_total = 0;
  finished_evicted = 0;
  finished_evict_warned = false;
  decode_rows_per_step = [];
  max_batch_size = 2;
  max_seq_len = 12;
  max_gen_len = 12;
  next_seq_id = 2;
  block_size = 4;
}

abbrev endless : Model
endless = record {
  decode_step = λ _. true;
  forward_batch = λ _. true;
  post_processing_batch = λ _. 9 ∷ 9 ∷ [];
  is_sentence_ending = λ _. false;
}

-- The token 6, which the first sequence has generated last, ends a sentence.
abbrev closing : Model
closing = record endless { is_sentence_ending = λ token. token == 6 }

update_sequences-Updated_example :
    Returns (update_sequences closing schedule) (Updated closing schedule)
update_sequences-Updated_example =
    update_sequences-Updated closing schedule
      (record {
        pool = busy_pool-Inv;
        history = record { accounted = refl; bounded = inr (omega arith) };
      })
      (omega arith, (tt, tt))

force_finish_all-Retired_example :
    Returns (force_finish_all schedule) (λ s'. Retired 1 schedule s' × (s'.running_sequences ≡ []))
force_finish_all-Retired_example =
    force_finish_all-Retired schedule
      (record {
        pool = busy_pool-Inv;
        history = record { accounted = refl; bounded = inr (omega arith) };
      })
      (omega arith, (tt, tt))

plan-Planned_example : Planned schedule 1 1 (plan schedule 1 1).0 (plan schedule 1 1).1
plan-Planned_example = plan-Planned schedule 1 1 (omega arith) (omega arith, (omega arith, tt))

truncated-Cut_example : Cut 4 4 1 decoding (truncated 4 4 1 decoding)
truncated-Cut_example =
    truncated-Cut 4 4 1 decoding (omega arith) refl (omega arith) refl (omega arith)

add_request-outcome_example :
    Rejected
      (1 ∷ 2 ∷ [])
      schedule
      (add_request (1 ∷ 2 ∷ []) schedule).0
      (add_request (1 ∷ 2 ∷ []) schedule).1
    ⊎ Accepted
        (1 ∷ 2 ∷ [])
        schedule
        (add_request (1 ∷ 2 ∷ []) schedule).0
        (add_request (1 ∷ 2 ∷ []) schedule).1
add_request-outcome_example = add_request-outcome (1 ∷ 2 ∷ []) schedule

flush_preempted-Flushed_example : Flushed schedule (flush_preempted schedule)
flush_preempted-Flushed_example = flush_preempted-Flushed schedule

retire_finished-HistoryOk_example :
    HistoryOk (retire_finished decoding schedule)
    × ((retire_finished decoding schedule).finished_total ≡ 1)
retire_finished-HistoryOk_example =
    retire_finished-HistoryOk decoding schedule
      (record { accounted = refl; bounded = inr (omega arith) })

prefill_order-partition_example :
    prefill_order schedule
    ≡ shorts schedule.running_sequences (pending_prefills 0 schedule.running_sequences)
      ++ longs schedule.running_sequences (pending_prefills 0 schedule.running_sequences)
prefill_order-partition_example = prefill_order-partition schedule

abbrev row_of : ℕ → Bool → BatchRow
row_of seq is_decode = record { seq = seq; is_decode = is_decode; token_id = 1; position = 0 }

row_starts-RowMap_example :
    RowMap 1
      (row_of 2 false ∷ row_of 2 false ∷ row_of 3 false ∷ [])
      (row_starts 1 (row_of 2 false ∷ row_of 2 false ∷ row_of 3 false ∷ []))
row_starts-RowMap_example =
    row_starts-RowMap 1 (row_of 2 false) (row_of 2 false ∷ row_of 3 false ∷ [])

-- Two prefill rows and a decode row of the running sequence.
abbrev sample_rows : List BatchRow
sample_rows = row_of 0 false ∷ row_of 0 true ∷ row_of 0 false ∷ []

schedule_row :
    (i : ℕ) (q : Sequence)
    → get_elem? schedule.running_sequences i ≡ some q
    → is_running q ≡ true
    → (i ≡ 0) × (q.kv_slot_id ≡ some 0)
schedule_row zero q at runs = (refl, sym (ap (λ p. p.kv_slot_id) (some-injective decoding q at)))
schedule_row (suc zero) q at runs =
    let idle : false ≡ true = ap is_running (some-injective given_up q at) ∙ runs in
    absurd (ground (arith, idle))
schedule_row (suc (suc i)) q at runs = absurd (ground (arith, at))

schedule-RowsOk : RowsOk schedule
schedule-RowsOk = record {
  pool = busy_pool-Inv;
  has_row = λ i q at runs. (0, (schedule_row i q at runs).1, omega arith);
  own_row = λ i j p q row at at' runs runs' slot slot'.
      omega (arith, (schedule_row i p at runs).0, (schedule_row j q at' runs').0);
}

schedule-Ready : Ready 0 0 decoding schedule
schedule-Ready = record {
  holds = record {
    pool = busy_pool-Inv;
    hook = tt;
    present = refl;
    slot = refl;
    in_range = omega arith;
    owned = refl;
    used = refl;
  };
  rows = schedule-RowsOk;
  runs = refl;
  sized = omega arith;
  prompts = (omega arith, (omega arith, tt));
}

-- Five blocks are asked for, one more than are free.
try_preempt_for-Preempted_example : Returns (try_preempt_for 5 1 schedule) (Preempted 5 1 schedule)
try_preempt_for-Preempted_example =
    try_preempt_for-Preempted 5 1 schedule schedule-RowsOk (omega arith)
      (omega arith, (omega arith, tt))

-- The third block of the sequence.
ensure_blocks_for-Ensured_example :
    Returns (ensure_blocks_for 0 10 schedule) (Ensured (10 / schedule.block_size + 1) 0 0)
ensure_blocks_for-Ensured_example =
    ensure_blocks_for-Ensured 0 0 10 decoding schedule schedule-Ready refl
