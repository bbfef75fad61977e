-- ===== src/Scheduler/Execution/StagedRows.antt =====
-- The arrays that execute_batch stages for the model, row by row.
use llm_steady_infer.Base.{
  ℕ, ◌/◌, ◌≤◌, ◌<◌, ◌≡◌, sym, ap, subst, Option, some, List, length, take, map, get_elem?, All,
  All-append, All-mono, if◌then◌else◌, arith,
}
use llm_steady_infer.BlockAllocator.{Row}
use llm_steady_infer.Scheduler.State.{Scheduler}
use llm_steady_infer.Scheduler.Preemption.{pool_of}
use llm_steady_infer.Scheduler.Batch.{BatchRow}
use llm_steady_infer.Scheduler.Execution.{
  Staged, decode_part, prefill_part, ordered, live_cols, slot_of, row_starts,
}
use llm_steady_infer.Scheduler.Execution.RowOrder.{
  RowReady, StageReady, decode_part-All, live_cols-enough, prefill_part-All,
}

module _ (s : Scheduler) where
  -- The slots of the rows.
  SlotPost : List BatchRow → List (Option ℕ) → Type 0
  SlotPost rs slots =
      (k : ℕ) (r : BatchRow) → get_elem? rs k ≡ some r → get_elem? slots k ≡ slot_of s r

  module _ (cols : ℕ) (positive : 0 < cols) (narrow : cols ≤ (pool_of s).max_blocks_per_seq) where
    -- The columns of the rows' tables.
    TablePost : List BatchRow → List Row → Type 0
    TablePost rs tables =
        (k : ℕ) (r : BatchRow) (row : ℕ)
        → get_elem? rs k ≡ some r
        → slot_of s r ≡ some (some row)
        → get_elem? tables k ≡ some (take cols ((pool_of s).block_tables row))

module _ (rows : List BatchRow) (s : Scheduler) (ready : StageReady rows s) where
  abbrev cols : ℕ
  cols =
      if s.kv_manager.paged
      then live_cols s.block_size s.kv_manager.max_blocks_per_seq (ordered rows)
      else 0

  ready_rows : All (RowReady s) (ordered rows)
  ready_rows =
      All-append (RowReady s) (decode_part rows) (prefill_part rows)
        (decode_part-All (RowReady s) rows ready.each)
        (prefill_part-All (RowReady s) rows ready.each)

  cols-enough :
      (All (λ r. r.position / s.block_size < cols) (ordered rows))
      × (cols ≤ s.kv_manager.max_blocks_per_seq)
  cols-enough =
      subst
        (λ c.
          (All (λ r. r.position / s.block_size < c) (ordered rows))
          × (c ≤ s.kv_manager.max_blocks_per_seq))
        (sym (
          ap
            (λ b.
              if b
              then live_cols s.block_size s.kv_manager.max_blocks_per_seq (ordered rows)
              else 0)
            ready.paged))
        (live_cols-enough s.block_size s.kv_manager.max_blocks_per_seq (ordered rows) (
          All-mono (RowReady s) (λ r. r.position / s.block_size < s.kv_manager.max_blocks_per_seq)
            (ordered rows) (λ r q. q.reaches) ready_rows))

  narrow : cols ≤ (pool_of s).max_blocks_per_seq
  narrow = omega (arith, cols-enough.1, ready.same_width)

  abbrev staged : List (Option ℕ) → List Row → Staged
  staged slots tables = record {
    input_ids = map (λ r. r.token_id) (ordered rows);
    positions = map (λ r. r.position) (ordered rows);
    block_table = tables;
    kv_slots = slots;
    seq_row_start = row_starts (length (decode_part rows)) (prefill_part rows);
    num_decode_rows = length (decode_part rows);
    table_cols = cols;
  }
