-- ===== src/Scheduler/Batch.antt =====
-- build_batch_rows (source/scheduler/scheduler.cpp).
pub mod PrefillOrder
use llm_steady_infer.Base.{
  ℕ, zero, suc, ◌+◌, ◌-◌, ◌*◌, ◌/◌, ◌≡◌, Bool, true, false, not, ◌&&◌, ◌||◌, Option, none, some,
  List, [], ◌∷◌, ◌++◌, reverse, ltb, leb, ◌==◌, if◌then◌else◌, length, take, set, min, get_elem?,
  ◌>>=◌,
}
use llm_steady_infer.Sequence.{
  Sequence, running, preempted, finished, is_running, sync_kv_quant_state,
}
use llm_steady_infer.Scheduler.State.{Scheduler, k_prefill_row_reserve, row_cap_for}
use llm_steady_infer.Scheduler.Preemption.{with_running, ensure_blocks_for}

pub record BatchRow : Type 0 where
  -- The sequence's index in running_sequences_.
  pub seq : ℕ
  pub is_decode : Bool
  pub token_id : ℕ
  pub position : ℕ

-- What the function keeps: the scheduler, the rows so far, and prefill_taken.
pub record Batch : Type 0 where
  pub scheduler : Scheduler
  pub rows : List BatchRow
  pub prefill_taken : ℕ

-- std::vector::back
abbrev pub back : List ℕ → Option ℕ
back [] = none
back (x ∷ []) = some x
back (x ∷ y ∷ ys) = back (y ∷ ys)

abbrev pub decode_token : Sequence → Option ℕ
decode_token q = elim q.generated_tokens [ [] ↦ back q.prompt_tokens | x ∷ xs ↦ back (x ∷ xs) ]

-- is_finished = true, state = FINISHED
abbrev pub force_finished : Sequence → Sequence
force_finished q = record q { is_finished = true; state = finished }

abbrev pub claim_row : ℕ → Scheduler → Scheduler
claim_row i s = record s { batch_row_seqs = s.batch_row_seqs ++ i ∷ [] }

-- A sequence that cannot grow is finished.
abbrev pub give_up : ℕ → Scheduler → Option Scheduler
give_up i s = do q ← get_elem? s.running_sequences i; some (with_running i (force_finished q) s)

-- One decode row, for a sequence that passed the tests.
unfoldable pub decode_one : ℕ → Sequence → Batch → Option Batch
decode_one i q b = do
  let position = q.num_prompt_tokens + q.num_generated_tokens - 1
  (s, ok) ← ensure_blocks_for i position b.scheduler
  elim ok [
    | false ↦ do s' ← give_up i s; some (record b { scheduler = s' })
    | true ↦ do
      q' ← get_elem? s.running_sequences i
      token_id ← decode_token q'
      some (record b {
        scheduler = claim_row i s;
        rows =
            b.rows
            ++ record { seq = i; is_decode = true; token_id = token_id; position = position } ∷ [];
      })
  ]

abbrev pub decodes : Sequence → Bool
decodes q = is_running q && not q.is_finished && q.is_prefill_complete

-- The first loop, over the `n` sequences from `i` on.
unfoldable pub decode_rows : ℕ → ℕ → Batch → Option Batch
decode_rows zero i b = some b
decode_rows (suc n) i b = do
  q ← get_elem? b.scheduler.running_sequences i
  elim (decodes q) [
    | false ↦ decode_rows n (i + 1) b
    | true ↦ elim (leb b.scheduler.max_batch_size (length b.rows)) [
      | true ↦ some b
      | false ↦ do b' ← decode_one i q b; decode_rows n (i + 1) b'
    ]
  ]

abbrev pub prefills : Sequence → Bool
prefills q = is_running q && not q.is_finished && not q.is_prefill_complete

abbrev pub pending_prefills : ℕ → List Sequence → List ℕ
pending_prefills i [] = []
pending_prefills i (q ∷ qs) =
    if prefills q then i ∷ pending_prefills (i + 1) qs else pending_prefills (i + 1) qs

-- std::stable_sort: an element goes in front of the first that is not less than it.
abbrev pub insert_stable : (ℕ → ℕ → Bool) → ℕ → List ℕ → List ℕ
insert_stable less x [] = x ∷ []
insert_stable less x (y ∷ ys) = if less y x then y ∷ insert_stable less x ys else x ∷ y ∷ ys

abbrev pub stable_sort : (ℕ → ℕ → Bool) → List ℕ → List ℕ
stable_sort less [] = []
stable_sort less (x ∷ xs) = insert_stable less x (stable_sort less xs)

-- The prompt tokens of the sequence at an index that are not prefilled.
abbrev pub remaining : List Sequence → ℕ → ℕ
remaining qs i = elim (get_elem? qs i) [
  | none ↦ 0
  | some q ↦ q.num_prompt_tokens - q.next_prefill_chunk_start
]

abbrev pub is_short : List Sequence → ℕ → Bool
is_short qs i = leb (remaining qs i) k_prefill_row_reserve

abbrev pub short_first : List Sequence → ℕ → ℕ → Bool
short_first qs a b = is_short qs a && not (is_short qs b)

unfoldable pub prefill_order : Scheduler → List ℕ
prefill_order s =
    stable_sort (short_first s.running_sequences) (pending_prefills 0 s.running_sequences)

-- The rows of a chunk: `n` prompt tokens from position `p` on.
unfoldable pub chunk_rows : ℕ → ℕ → ℕ → List ℕ → Option (List BatchRow)
chunk_rows i zero p prompt_tokens = some []
chunk_rows i (suc n) p prompt_tokens = do
  token_id ← get_elem? prompt_tokens p
  rest ← chunk_rows i n (p + 1) prompt_tokens
  some (record { seq = i; is_decode = false; token_id = token_id; position = p } ∷ rest)

-- The sequence after a chunk of `n` tokens.
abbrev pub advanced : ℕ → ℕ → Sequence → Sequence
advanced group_size n q =
    let start = q.next_prefill_chunk_start + n in
    sync_kv_quant_state group_size (record q {
      next_prefill_chunk_start = start;
      is_prefill_complete = leb q.num_prompt_tokens start || q.is_prefill_complete;
    })

-- The second half of serve_prefill: a chunk of `n` tokens is taken.
unfoldable pub take_chunk : ℕ → ℕ → Batch → Option Batch
take_chunk i n b = do
  q ← get_elem? b.scheduler.running_sequences i
  rows ← chunk_rows i n q.next_prefill_chunk_start q.prompt_tokens
  let group_size = b.scheduler.kv_manager.group_size
  some (record {
    scheduler = with_running i (advanced group_size n q) (claim_row i b.scheduler);
    rows = b.rows ++ rows;
    prefill_taken = b.prefill_taken + n;
  })

-- The chunk that the budget and the row cap leave to a sequence.
abbrev pub chunk_of : Sequence → Batch → ℕ
chunk_of q b =
    min
      (min (q.num_prompt_tokens - q.next_prefill_chunk_start)
        (k_prefill_row_reserve - b.prefill_taken))
      (row_cap_for b.scheduler.max_batch_size - length b.rows)

unfoldable pub serve_prefill : ℕ → Batch → Option Batch
serve_prefill i b = do
  q ← get_elem? b.scheduler.running_sequences i
  if not (prefills q)
        || leb k_prefill_row_reserve b.prefill_taken
        || leb (row_cap_for b.scheduler.max_batch_size) (length b.rows)
        || chunk_of q b == 0
      then some b
      else (do
        (s, ok) ← ensure_blocks_for i (q.next_prefill_chunk_start + chunk_of q b - 1) b.scheduler
        let b' = record b { scheduler = s }
        q' ← get_elem? s.running_sequences i
        let covered = q'.num_blocks_allocated * s.block_size - q'.next_prefill_chunk_start
        elim ok [
          | true ↦ take_chunk i (chunk_of q b) b'
          | false ↦ elim (covered == 0) [
            | true ↦ do s' ← give_up i s; some (record b' { scheduler = s' })
            | false ↦ take_chunk i covered b'
          ]
        ])

unfoldable pub serve_all : List ℕ → Batch → Option Batch
serve_all [] b = some b
serve_all (i ∷ is) b = do
  b' ← serve_prefill i b
  elim (leb k_prefill_row_reserve b'.prefill_taken) [ true ↦ some b' | false ↦ serve_all is b' ]

unfoldable pub build_batch_rows : Scheduler → Option Batch
build_batch_rows s = do
  b ←
      decode_rows (length s.running_sequences) 0
        (record { scheduler = record s { batch_row_seqs = [] }; rows = []; prefill_taken = 0 })
  serve_all (prefill_order b.scheduler) b
