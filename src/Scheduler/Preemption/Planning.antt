-- ===== src/Scheduler/Preemption/Planning.antt =====
-- try_preempt_for: the plan.
use native.Mathlib.Nat.{le-div_iff_mul-le}
use mathlib.Core.List.{append_assoc}
use llm_steady_infer.Base.{
  ℕ, ◌+◌, ◌-◌, ◌/◌, ◌≤◌, ◌<◌, ◌≡◌, refl, sym, ◌∙◌, inl, inr, Bool, true, false, not, ◌||◌,
  Bool-cases, none, some, List, [], ◌∷◌, ◌++◌, reverse, ◌==◌, if◌then◌else◌, length, length-append,
  get_elem?, All, All-append, All-reverse, min, arith,
}
use llm_steady_infer.BlockAllocator.{reclaimable_blocks_from}
use llm_steady_infer.Sequence.{Sequence, is_running}
use llm_steady_infer.Scheduler.State.{Scheduler}
use llm_steady_infer.Scheduler.Preemption.{
  pool_of, indexed, elem_of, already_victim, keep_floor_of, eligible, plan_one, plan_walk, plan,
}

-- A planned victim is a running sequence that has no row in the batch and is not the one that the
-- blocks are for; it keeps a block, loses one, and its cut gives blocks back.
pub record Victim (s : Scheduler) (skip_seq_id : ℕ) (v : ℕ × ℕ) : Type 0 where
  pub seq : Sequence
  pub present : get_elem? s.running_sequences v.0 ≡ some seq
  pub runs : is_running seq ≡ true
  pub other : (seq.id == skip_seq_id) ≡ false
  pub not_in_batch : elem_of v.0 s.batch_row_seqs ≡ false
  pub keeps : 0 < v.1
  pub loses : v.1 < seq.num_blocks_allocated
  pub gains : 0 < reclaimable_blocks_from seq.kv_slot_id v.1 (pool_of s)

-- What the victims give back, by the pool's count.
abbrev pub total_gain : Scheduler → List (ℕ × ℕ) → ℕ
total_gain s [] = 0
total_gain s ((i, keep) ∷ vs) =
    elim (get_elem? s.running_sequences i) [
      | none ↦ 0
      | some q ↦ reclaimable_blocks_from q.kv_slot_id keep (pool_of s)
    ]
    + total_gain s vs

-- No sequence is planned twice.
abbrev pub Distinct : List (ℕ × ℕ) → Type 0
Distinct [] = Unit
Distinct ((i, keep) ∷ vs) = (already_victim i vs ≡ false) × Distinct vs

pub record Planned (s : Scheduler) (skip_seq_id missing needed : ℕ) (victims : List (ℕ × ℕ))
    : Type 0 where
  pub lawful : All (Victim s skip_seq_id) victims
  pub distinct : Distinct victims
  pub covered : missing ≤ needed + total_gain s victims

total_gain-append :
    (s : Scheduler) (vs ws : List (ℕ × ℕ))
    → total_gain s (vs ++ ws) ≡ total_gain s vs + total_gain s ws
total_gain-append s [] ws = omega arith
total_gain-append s ((i, keep) ∷ vs) ws = omega (arith, total_gain-append s vs ws)

already_victim-append :
    (i : ℕ) (vs ws : List (ℕ × ℕ))
    → already_victim i (vs ++ ws) ≡ (already_victim i vs || already_victim i ws)
already_victim-append i [] ws = refl
already_victim-append i ((j, keep) ∷ vs) ws = ground (arith, already_victim-append i vs ws)

Distinct-append :
    (vs : List (ℕ × ℕ)) (i keep : ℕ)
    → Distinct vs
    → already_victim i vs ≡ false
    → Distinct (vs ++ (i, keep) ∷ [])
Distinct-append [] i keep d h = (refl, tt)
Distinct-append ((j, k) ∷ vs) i keep d h = (
  already_victim-append j vs ((i, keep) ∷ []) ∙ ground (arith, d.0),
  Distinct-append vs i keep d.1 (ground arith),
)

-- The entries of the walk are the running sequences at their indices.
abbrev AtIndex : Scheduler → ℕ × Sequence → Type 0
AtIndex s (i, q) = (get_elem? s.running_sequences i ≡ some q) × (0 < q.num_prompt_tokens)

module _ (s : Scheduler) (skip_seq_id missing : ℕ) (pos : 0 < s.block_size) where
  abbrev PlanOk : ℕ × List (ℕ × ℕ) → Type 0
  PlanOk (needed, victims) = Planned s skip_seq_id missing needed victims

  keep_floor-pos :
      (first_phase : Bool) (q : Sequence)
      → 0 < q.num_prompt_tokens
      → 0 < q.num_blocks_allocated
      → 0 < keep_floor_of s.block_size first_phase q
  keep_floor-pos first_phase q h k =
      let one : 1 ≤ (q.num_prompt_tokens + s.block_size - 1) / s.block_size =
        (le-div_iff_mul-le pos).1 (omega arith) in
      ground (arith, one)

  -- One more victim that gives blocks back.
  add-Planned :
      (second_pass : Bool) (i keep : ℕ) (q : Sequence) (needed : ℕ) (victims : List (ℕ × ℕ))
      → get_elem? s.running_sequences i ≡ some q
      → eligible s skip_seq_id second_pass i q victims ≡ true
      → 0 < keep
      → keep < q.num_blocks_allocated
      → 0 < reclaimable_blocks_from q.kv_slot_id keep (pool_of s)
      → PlanOk (needed, victims)
      → PlanOk (
        needed - reclaimable_blocks_from q.kv_slot_id keep (pool_of s),
        victims ++ (i, keep) ∷ [],
      )
  add-Planned second_pass i keep q needed victims at fit kept lost gain h =
      let gained : total_gain s ((i, keep) ∷ [])
          ≡ reclaimable_blocks_from q.kv_slot_id keep (pool_of s) =
        rw at (omega arith) in
      record {
        lawful = All-append (Victim s skip_seq_id) victims ((i, keep) ∷ []) h.lawful (
          record {
            seq = q;
            present = at;
            runs = ground arith;
            other = ground arith;
            not_in_batch = ground arith;
            keeps = kept;
            loses = lost;
            gains = gain;
          },
          tt,
        );
        distinct = Distinct-append victims i keep h.distinct (ground arith);
        covered = omega (arith, h.covered, gained, total_gain-append s victims ((i, keep) ∷ []));
      }

  plan_one-Planned :
      (first_phase second_pass : Bool) (i : ℕ) (q : Sequence) (needed : ℕ) (victims : List (ℕ × ℕ))
      → AtIndex s (i, q)
      → PlanOk (needed, victims)
      → PlanOk (plan_one s skip_seq_id first_phase second_pass (i, q) (needed, victims))
  unfolding plan_one
  plan_one-Planned first_phase second_pass i q needed victims at h =
      let keep_floor = keep_floor_of s.block_size first_phase q in
      let gain_from : ℕ → ℕ = λ start. reclaimable_blocks_from q.kv_slot_id start (pool_of s) in
      let max_take = min (q.num_blocks_allocated - keep_floor) (gain_from keep_floor) in
      let shallow = q.num_blocks_allocated - min max_take needed in
      let keep = if gain_from shallow == 0 then keep_floor else shallow in
      elim (Bool-cases (needed == 0 || not (eligible s skip_seq_id second_pass i q victims))) [
        | inl e ↦ rw e h
        | inr e ↦ rw e (elim (Bool-cases (max_take == 0 || gain_from keep == 0)) [
          | inl f ↦ rw f h
          | inr f ↦ rw f (
              let floor_pos = keep_floor-pos first_phase q at.1 (ground arith) in
              add-Planned second_pass i keep q needed victims at.0 (ground arith)
                (ground (arith, floor_pos)) (ground arith) (ground arith) h)
        ])
      ]

  plan_walk-Planned :
      (first_phase second_pass : Bool) (qs : List (ℕ × Sequence)) (p : ℕ × List (ℕ × ℕ))
      → All (AtIndex s) qs
      → PlanOk p
      → PlanOk (plan_walk s skip_seq_id first_phase second_pass qs p)
  unfolding plan_walk
  plan_walk-Planned first_phase second_pass [] p at h = h
  plan_walk-Planned first_phase second_pass ((i, q) ∷ qs) (needed, victims) at h =
      plan_walk-Planned first_phase second_pass qs _ at.1
        (plan_one-Planned first_phase second_pass i q needed victims at.0 h)

get_elem?-append :
    (xs ys : List Sequence) (y : Sequence) → get_elem? (xs ++ y ∷ ys) (length xs) ≡ some y
get_elem?-append [] ys y = refl
get_elem?-append (x ∷ xs) ys y = get_elem?-append xs ys y

indexed-AtIndex :
    (s : Scheduler) (xs ys : List Sequence) (n : ℕ)
    → n ≡ length xs
    → s.running_sequences ≡ xs ++ ys
    → All (λ q. 0 < q.num_prompt_tokens) ys
    → All (AtIndex s) (indexed n ys)
indexed-AtIndex s xs [] n e same h = tt
indexed-AtIndex s xs (y ∷ ys) n e same h = (
  (rw (same, e) (get_elem?-append xs ys y), h.0),
  indexed-AtIndex s (xs ++ y ∷ []) ys (n + 1) (omega (arith, e, length-append xs (y ∷ [])))
      (same ∙ sym (append_assoc xs (y ∷ []) ys)) h.1,
)

-- With a positive block size and no empty prompt among the running sequences, the plan for
-- `missing` blocks names running sequences outside the batch, each once, that keep a block and
-- give some back. What they give back and what is still needed cover the missing blocks.
pub plan-Planned :
    (s : Scheduler) (skip_seq_id missing : ℕ)
    → 0 < s.block_size
    → All (λ q. 0 < q.num_prompt_tokens) s.running_sequences
    → let (needed, victims) = plan s skip_seq_id missing in
      Planned s skip_seq_id missing needed victims
unfolding plan
plan-Planned s skip_seq_id missing pos prompts = walk false true _ (
    walk false false _ (
      walk true true _ (
        walk true false (missing, [])
          (record { lawful = tt; distinct = tt; covered = omega arith }))))
  where
    newest_first : List (ℕ × Sequence)
    newest_first = reverse (indexed 0 s.running_sequences)

    at : All (AtIndex s) newest_first
    at =
        All-reverse (AtIndex s) (indexed 0 s.running_sequences)
          (indexed-AtIndex s [] s.running_sequences 0 refl refl prompts)

    walk :
        (first_phase second_pass : Bool) (p : ℕ × List (ℕ × ℕ))
        → Planned s skip_seq_id missing p.0 p.1
        → let r = plan_walk s skip_seq_id first_phase second_pass newest_first p in
          Planned s skip_seq_id missing r.0 r.1
    walk first_phase second_pass p h =
        plan_walk-Planned s skip_seq_id missing pos first_phase second_pass newest_first p at h
