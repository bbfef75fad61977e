-- ===== src/Scheduler/Preemption/Freeing.antt =====
-- try_preempt_for: cutting the planned victims frees the blocks that are asked for.
use mathlib.Core.Option.{some-injective}
use llm_steady_infer.Base.{
  ℕ, ◌+◌, ◌-◌, ◌≤◌, ◌<◌, ◌≡◌, ◌≢◌, refl, sym, ap, ◌∙◌, inl, inr, Bool, true, false, Bool-cases,
  some, List, [], ◌∷◌, ◌==◌, get_elem?, All, arith, ltb, ==_iff, Returns, Returns-bind, ◌>>=◌,
}
use llm_steady_infer.BlockAllocator.{free_block_count}
use llm_steady_infer.BlockAllocator.Invariant.{Inv}
use llm_steady_infer.Sequence.{Sequence, is_running}
use llm_steady_infer.Scheduler.State.{Scheduler}
use llm_steady_infer.Scheduler.Preemption.{
  pool_of, already_victim, truncate_all, plan, try_preempt_for,
}
use llm_steady_infer.Scheduler.Preemption.Planning.{Victim, Distinct, total_gain, plan-Planned}
use llm_steady_infer.Scheduler.Preemption.Cutting.{
  Away, CutAll, OwnsRow, RowsOk, Targets, Untouched, truncate_all-CutAll,
}

-- The planned victims own rows of their own.
module _ (s : Scheduler) (skip_seq_id : ℕ) (ok : RowsOk s) where
  apart :
      (i j row r : ℕ) (p : Sequence) (w : Victim s skip_seq_id (j, r))
      → get_elem? s.running_sequences i ≡ some p
      → is_running p ≡ true
      → p.kv_slot_id ≡ some row
      → i ≢ j
      → (r' : ℕ) → OwnsRow s j r'
      → r' ≢ row
  apart i j row r p w at runs slot ne r' o e = ne (
      ok.own_row i j p w.seq row at w.present runs w.runs slot (
        ap (λ q. q.kv_slot_id) (some-injective w.seq o.seq (sym w.present ∙ o.present))
        ∙ o.slot
        ∙ ap some e))

  Away-of :
      (i row : ℕ) (p : Sequence) (vs : List (ℕ × ℕ))
      → get_elem? s.running_sequences i ≡ some p
      → is_running p ≡ true
      → p.kv_slot_id ≡ some row
      → already_victim i vs ≡ false
      → All (Victim s skip_seq_id) vs
      → Away s i row vs
  Away-of i row p [] at runs slot new ws = tt
  Away-of i row p ((j, keep) ∷ vs) at runs slot new ws =
      let ne : i ≢ j = (λ e. ground (arith, e, new)) in
      (
        (ne, apart i j row keep p ws.0 at runs slot ne),
        Away-of i row p vs at runs slot (ground (arith, new)) ws.1,
      )

  Targets-of : (vs : List (ℕ × ℕ)) → All (Victim s skip_seq_id) vs → Distinct vs → Targets s vs
  Targets-of [] ws d = tt
  Targets-of ((i, keep) ∷ vs) ws d =
      let (row, slot, lt) = ok.has_row i ws.0.seq ws.0.present ws.0.runs in
      (
        (
          row,
          record { seq = ws.0.seq; present = ws.0.present; slot = slot; in_range = lt },
          Away-of i row ws.0.seq vs ws.0.present ws.0.runs slot d.0 ws.1,
        ),
        Targets-of vs ws.1 d.1,
      )

-- What is promised to the sequence that the blocks are for.
pub record Spared (skip_seq_id : ℕ) (s s' : Scheduler) : Type 0 where
  pub same_num_blocks : (pool_of s').num_blocks ≡ (pool_of s).num_blocks
  pub same_num_rows : (pool_of s').num_rows ≡ (pool_of s).num_rows
  pub same_width : (pool_of s').max_blocks_per_seq ≡ (pool_of s).max_blocks_per_seq
  pub same_cache : s'.prefix_cache ≡ s.prefix_cache
  pub spared :
      (i row : ℕ) (q : Sequence)
      → get_elem? s.running_sequences i ≡ some q
      → is_running q ≡ true
      → (q.id == skip_seq_id) ≡ true
      → q.kv_slot_id ≡ some row
      → Untouched s s' i row

-- The results of try_preempt_for.
pub data Preempted (need_blocks skip_seq_id : ℕ) (s : Scheduler) : Scheduler × Bool → Type 0 where
  enough :
      (s' : Scheduler)
      → Inv (pool_of s')
      → need_blocks ≤ free_block_count (pool_of s')
      → Spared skip_seq_id s s'
      → Preempted need_blocks skip_seq_id s (s', true)
  short :
      free_block_count (pool_of s) < need_blocks → Preempted need_blocks skip_seq_id s (s, false)

module _ (need_blocks skip_seq_id : ℕ) (s : Scheduler) (ok : RowsOk s) where
  skipped_apart :
      (i row : ℕ) (q : Sequence) (vs : List (ℕ × ℕ))
      → get_elem? s.running_sequences i ≡ some q
      → (q.id == skip_seq_id) ≡ true
      → All (Victim s skip_seq_id) vs
      → already_victim i vs ≡ false
  skipped_apart i row q [] at skipped ws = refl
  skipped_apart i row q ((j, keep) ∷ vs) at skipped ws = elim (Bool-cases (j == i)) [
    | inl same ↦
        let e = ap (get_elem? s.running_sequences) ((==_iff j i).0 same) in
        let w = ws.0 in
        let twin : w.seq ≡ q = some-injective w.seq q (sym w.present ∙ e ∙ at) in
        absurd (ground (arith, w.other, skipped, ap (λ x. x.id) twin))
    | inr differ ↦ rw differ (skipped_apart i row q vs at skipped ws.1)
  ]

  Preempted-by :
      (vs : List (ℕ × ℕ))
      → All (Victim s skip_seq_id) vs
      → Distinct vs
      → need_blocks ≤ free_block_count (pool_of s) + total_gain s vs
      → Returns (truncate_all vs s >>= λ s'. some (s', true)) (Preempted need_blocks skip_seq_id s)
  Preempted-by vs ws distinct covers =
      Returns-bind (CutAll vs s) (Preempted need_blocks skip_seq_id s) (truncate_all vs s) _
        (truncate_all-CutAll vs s ok.pool (Targets-of s skip_seq_id ok vs ws distinct))
        (λ s' c. enough s' c.inv (omega (arith, c.gain, covers)) (record {
          same_num_blocks = c.same_num_blocks;
          same_num_rows = c.same_num_rows;
          same_width = c.same_width;
          same_cache = c.same_cache;
          spared = λ i row q at runs skipped slot. c.untouched i row (
              Away-of s skip_seq_id ok i row q vs at runs slot
                (skipped_apart i row q vs at skipped ws) ws);
        }))

-- On a pool in order, with rows of their own for the running sequences and a token in every prompt,
-- try_preempt_for returns. When it says true, the free list holds at least the blocks that are asked
-- for, the pool is in order, and the sequence that the blocks are for keeps its fields, its row and
-- its blocks; when it says false, the free list was too short and nothing has changed.
pub try_preempt_for-Preempted :
    (need_blocks skip_seq_id : ℕ) (s : Scheduler)
    → RowsOk s
    → 0 < s.block_size
    → All (λ q. 0 < q.num_prompt_tokens) s.running_sequences
    → Returns (try_preempt_for need_blocks skip_seq_id s) (Preempted need_blocks skip_seq_id s)
unfolding try_preempt_for
try_preempt_for-Preempted need_blocks skip_seq_id s ok pos prompts =
    let missing = need_blocks - free_block_count (pool_of s) in
    let planned =
      plan-Planned s skip_seq_id (need_blocks - free_block_count (pool_of s)) pos prompts in
    elim (Bool-cases (need_blocks - free_block_count (pool_of s) == 0)) [
      | inl there ↦ rw there (
          enough s ok.pool (ground (arith, there)) (record {
            same_num_blocks = refl;
            same_num_rows = refl;
            same_width = refl;
            same_cache = refl;
            spared = λ i row q at runs skipped slot. record {
              same_seq = refl;
              same_table = refl;
              same_owner = refl;
            };
          }))
      | inr short_of ↦
          elim (Bool-cases
            (ltb 0 (plan s skip_seq_id (need_blocks - free_block_count (pool_of s))).0)) [
              | inl failed ↦
                  rw (short_of, failed, try_preempt_for) (short (ground (arith, short_of)))
              | inr found ↦
                  rw (short_of, found, try_preempt_for)
                    (Preempted-by need_blocks skip_seq_id s ok
                      (plan s skip_seq_id (need_blocks - free_block_count (pool_of s))).1
                      planned.lawful planned.distinct (ground (arith, planned.covered, found)))
            ]
    ]
