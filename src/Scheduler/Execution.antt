-- ===== src/Scheduler/Execution.antt =====
-- execute_batch, record_committed_prefill, force_finish_all and update_sequences
-- (source/scheduler/scheduler.cpp). The model is a parameter.
pub mod Staging
pub mod RowOrder
pub mod StagedRows
pub mod Retirement
pub mod Done
pub mod Updating
use llm_steady_infer.Base.{
  ℕ, zero, suc, ◌+◌, ◌-◌, ◌*◌, ◌/◌, ◌≡◌, Bool, true, false, not, ◌&&◌, ◌||◌, Option, none, some,
  List, [], ◌∷◌, ◌++◌, ltb, leb, ◌==◌, if◌then◌else◌, length, min, map, get_elem?, set, check,
  ◌>>=◌, ◌>>◌,
}
use llm_steady_infer.BlockAllocator.{BlockAllocator, Row, copy_block_table_row}
use llm_steady_infer.KvManager.{quantized, deallocate}
use llm_steady_infer.PrefixCache.{insert_committed}
use llm_steady_infer.Sequence.{Sequence, finished, is_running, sync_kv_quant_state}
use llm_steady_infer.Scheduler.State.{Scheduler, row_cap_for, retire_finished}
use llm_steady_infer.Scheduler.Preemption.{pool_of, with_pool, with_running}
use llm_steady_infer.Scheduler.Batch.{BatchRow, back}

-- What execute_batch hands to the model, beside the caches.
pub record Staged : Type 0 where
  pub input_ids : List ℕ
  pub positions : List ℕ
  pub block_table : List Row
  pub kv_slots : List (Option ℕ)
  pub seq_row_start : List ℕ
  pub num_decode_rows : ℕ
  pub table_cols : ℕ

-- model::Model as far as the scheduler calls it: the status of the forward pass, the sampled tokens,
-- and the end-of-text test.
pub record Model : Type 0 where
  pub decode_step : Staged → Bool
  pub forward_batch : Staged → Bool
  pub post_processing_batch : Staged → List ℕ
  pub is_sentence_ending : ℕ → Bool

abbrev pub decode_part : List BatchRow → List BatchRow
decode_part [] = []
decode_part (r ∷ rs) = if r.is_decode then r ∷ decode_part rs else decode_part rs

abbrev pub prefill_part : List BatchRow → List BatchRow
prefill_part [] = []
prefill_part (r ∷ rs) = if r.is_decode then prefill_part rs else r ∷ prefill_part rs

abbrev pub ordered : List BatchRow → List BatchRow
ordered rows = decode_part rows ++ prefill_part rows

-- The loop behind row_start[0]: `i` is the index of the first row, `last` the sequence before it.
unfoldable pub row_starts_from : ℕ → ℕ → List BatchRow → List ℕ
row_starts_from i last [] = i ∷ []
row_starts_from i last (r ∷ rs) =
    let rest = row_starts_from (i + 1) r.seq rs in if r.seq == last then rest else i ∷ rest

-- row_start[0 .. num_prefill_seqs], for prefill rows that begin at row `i`.
unfoldable pub row_starts : ℕ → List BatchRow → List ℕ
row_starts i [] = []
row_starts i (r ∷ rs) = i ∷ row_starts_from (i + 1) r.seq rs

abbrev max : ℕ → ℕ → ℕ
max a b = if ltb a b then b else a

-- The widest row's columns.
unfoldable pub live_cols : ℕ → ℕ → List BatchRow → ℕ
live_cols block_size stride [] = 0
live_cols block_size stride (r ∷ rs) =
    max (min (r.position / block_size + 1) stride) (live_cols block_size stride rs)

abbrev pub slot_of : Scheduler → BatchRow → Option (Option ℕ)
slot_of s r = do q ← get_elem? s.running_sequences r.seq; some q.kv_slot_id

unfoldable pub stage_tables : Scheduler → ℕ → List BatchRow → Option (List Row)
stage_tables s table_cols [] = some []
stage_tables s table_cols (r ∷ rs) = do
  slot ← slot_of s r
  entries ← copy_block_table_row slot table_cols (pool_of s)
  rest ← stage_tables s table_cols rs
  some (entries ∷ rest)

unfoldable pub stage_slots : Scheduler → List BatchRow → Option (List (Option ℕ))
stage_slots s [] = some []
stage_slots s (r ∷ rs) = do slot ← slot_of s r; rest ← stage_slots s rs; some (slot ∷ rest)

-- The part of execute_batch before the model is called.
unfoldable pub stage : List BatchRow → Scheduler → Option Staged
stage rows s = do
  let decoding = decode_part rows
  let in_order = ordered rows
  let cols =
      if s.kv_manager.paged
      then live_cols s.block_size s.kv_manager.max_blocks_per_seq in_order
      else 0
  check (leb (length rows + 1) (row_cap_for s.max_batch_size + 2))
  check (not s.kv_manager.paged || ltb 0 cols)
  check (leb (length rows) (row_cap_for s.max_batch_size))
  slots ← if quantized s.kv_manager then stage_slots s in_order else some []
  tables ← stage_tables s cols in_order
  some (record {
    input_ids = map (λ r. r.token_id) in_order;
    positions = map (λ r. r.position) in_order;
    block_table = tables;
    kv_slots = slots;
    seq_row_start = row_starts (length decoding) (prefill_part rows);
    num_decode_rows = length decoding;
    table_cols = cols;
  })

-- The sequence after one sampled token.
unfoldable pub generated : ℕ → ℕ → Sequence → Sequence
generated group_size token q = sync_kv_quant_state group_size (record q {
  generated_tokens = q.generated_tokens ++ token ∷ [];
  num_generated_tokens = q.num_generated_tokens + 1;
})

-- The loop over the decode rows: next_tokens[i] goes to the sequence of row i.
unfoldable pub append_tokens : List BatchRow → List ℕ → Scheduler → Option Scheduler
append_tokens [] next_tokens s = some s
append_tokens (r ∷ rs) [] s = none
append_tokens (r ∷ rs) (t ∷ ts) s = do
  q ← get_elem? s.running_sequences r.seq
  append_tokens rs ts (with_running r.seq (generated s.kv_manager.group_size t q) s)

-- The body of force_finish_all's loop, for each running sequence.
unfoldable pub finish_each : List Sequence → Scheduler → Option Scheduler
finish_each [] s = some s
finish_each (q ∷ qs) s = elim q.is_finished [
  | true ↦ finish_each qs s
  | false ↦ do
    m ← deallocate q.kv_slot_id s.kv_manager
    finish_each qs (
        retire_finished (record q { is_finished = true; state = finished })
          (record s { kv_manager = m }))
]

unfoldable pub force_finish_all : Scheduler → Option Scheduler
force_finish_all s = do
  s' ← finish_each s.running_sequences s
  some (record s' { running_sequences = [] })

module _ (model : Model) where
  -- The two calls of the model: with a prefill row, and without.
  unfoldable pub execute_batch : List BatchRow → Scheduler → Option Scheduler
  execute_batch [] s = some s
  execute_batch (r ∷ rs) s = do
    let rows : List BatchRow = r ∷ rs
    let decoding = decode_part rows
    staged ← stage rows s
    let any_prefill = ltb (length decoding) (length rows)
    let recorded =
        if length decoding == 0
        then s
        else record s { decode_rows_per_step = s.decode_rows_per_step ++ length decoding ∷ [] }
    check (any_prefill || leb (length rows) s.max_batch_size)
    elim (if any_prefill then model.forward_batch staged else model.decode_step staged) [
      | false ↦ force_finish_all recorded
      | true ↦ elim (length decoding == 0) [
        | true ↦ some recorded
        | false ↦ do
          check (leb (length decoding) s.max_batch_size)
          append_tokens decoding (model.post_processing_batch staged) recorded
      ]
    ]

  -- Whether update_sequences retires the sequence, and as what.
  unfoldable pub retires : Sequence → Option Bool
  retires q =
      if q.is_finished || leb q.max_gen_len q.num_generated_tokens
      then some true
      else if q.is_prefill_complete && not (length q.generated_tokens == 0)
      then (do last_token ← back q.generated_tokens; some (model.is_sentence_ending last_token))
      else some false

  -- The loop of update_sequences; `kept` are the running sequences that stay.
  unfoldable pub update_from : List Sequence → List Sequence → Scheduler → Option Scheduler
  update_from [] kept s = some (record s { running_sequences = kept })
  update_from (q ∷ qs) kept s = do
    done ← retires q
    elim done [
      | false ↦ update_from qs (kept ++ q ∷ []) s
      | true ↦ do
        m ← deallocate q.kv_slot_id s.kv_manager
        update_from qs kept (
            retire_finished (record q { is_finished = true; state = finished })
              (record s { kv_manager = m }))
    ]

  unfoldable pub update_sequences : Scheduler → Option Scheduler
  update_sequences s = update_from s.running_sequences [] s

-- The body of record_committed_prefill's loop, for the `n` sequences from `i` on.
unfoldable pub record_from : ℕ → ℕ → Scheduler → Option Scheduler
record_from zero i s = some s
record_from (suc n) i s = elim s.prefix_cache [
  | none ↦ some s
  | some c ↦ do
    q ← get_elem? s.running_sequences i
    elim (is_running q && not q.is_finished && ltb 0 q.next_prefill_chunk_start) [
      | false ↦ record_from n (i + 1) s
      | true ↦ elim q.kv_slot_id [
        | none ↦ record_from n (i + 1) s
        | some row ↦ do
          check (ltb row (pool_of s).num_rows)
          p ←
              insert_committed q.prompt_tokens q.next_prefill_chunk_start
                ((pool_of s).block_tables row) q.prefix_hash_chain c (pool_of s)
          record_from n (i + 1) (
              with_running i (record q { prefix_hash_chain = p.hash_chain })
                (with_pool p.pool (record s { prefix_cache = some p.cache })))
      ]
    ]
]

unfoldable pub record_committed_prefill : Scheduler → Option Scheduler
record_committed_prefill s = record_from (length s.running_sequences) 0 s
