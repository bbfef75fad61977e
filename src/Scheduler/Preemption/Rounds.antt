-- ===== src/Scheduler/Preemption/Rounds.antt =====
-- ensure_blocks_for: the rounds of its loop, when enough blocks are free.
use llm_steady_infer.Base.{
  ℕ, zero, suc, ◌+◌, ◌-◌, ◌≤◌, ◌<◌, ◌≡◌, refl, sym, ap, subst, inl, inr, Bool, true, false,
  Bool-cases, Option, some, get_elem?, arith, leb, Returns, Returns-bind, ◌>>=◌,
}
use llm_steady_infer.BlockAllocator.{BlockAllocator, append_blocks, free_block_count}
use llm_steady_infer.PrefixCache.{PrefixCache}
use llm_steady_infer.Sequence.{Sequence}
use llm_steady_infer.Scheduler.State.{Scheduler, reclaim_fn_of}
use llm_steady_infer.Scheduler.Preemption.{
  pool_of, with_pool, with_running, not_grown, grown_or, grow_to, try_preempt_for,
}
use llm_steady_infer.Scheduler.Preemption.OneBlock.{
  Ensured, Holds, OneMore, append_blocks-OneMore, appended, covered, got, longer, none_left,
}

-- The two outcomes of append_blocks in a round, and the round.
abbrev pub keep_on :
    (Scheduler → Option (Scheduler × Bool)) → Scheduler × Bool → Option (Scheduler × Bool)
keep_on again (s, freed) = elim freed [ true ↦ again s | false ↦ some (s, false) ]

abbrev pub answer :
    (Scheduler → Option (Scheduler × Bool))
    → ℕ
    → ℕ
    → Sequence
    → Scheduler
    → (Option PrefixCache × BlockAllocator) × Option ℕ
    → Option (Scheduler × Bool)
answer again needed i q s ((cache, a), count) =
    let s₁ = with_pool a (record s { prefix_cache = cache }) in
    elim (not_grown count q.num_blocks_allocated) [
      | false ↦ again (
          with_running i (record q { num_blocks_allocated = grown_or q.num_blocks_allocated count })
            s₁)
      | true ↦ try_preempt_for (needed - q.num_blocks_allocated) q.id s₁ >>= keep_on again
    ]

abbrev pub grow_body :
    (Scheduler → Option (Scheduler × Bool))
    → ℕ
    → ℕ
    → Scheduler
    → Sequence
    → Option (Scheduler × Bool)
grow_body again needed i s q = elim (leb needed q.num_blocks_allocated) [
  | true ↦ some (s, true)
  | false ↦
      append_blocks (reclaim_fn_of s.prefix_cache) q.kv_slot_id 1 (s.prefix_cache, pool_of s)
      >>= answer again needed i q s
]

pub grow_to-body :
    (fuel needed i : ℕ) (q : Sequence) (s : Scheduler)
    → get_elem? s.running_sequences i ≡ some q
    → grow_to (suc fuel) needed i s ≡ grow_body (grow_to fuel needed i) needed i s q
unfolding grow_to
grow_to-body fuel needed i q s present =
    ap (λ o. o >>= grow_body (grow_to fuel needed i) needed i s) present

-- A round that does not find enough blocks.
module _ (again : Scheduler → Option (Scheduler × Bool)) (needed i row : ℕ) (q : Sequence)
    (s : Scheduler) (h : Holds i row q s) where
  pub round-Ensured :
      (q.num_blocks_allocated < needed
        → (r : (Option PrefixCache × BlockAllocator) × Option ℕ) → OneMore i row q s r
        → Returns (answer again needed i q s r) (Ensured needed i row))
      → Returns (grow_body again needed i s q) (Ensured needed i row)
  round-Ensured go = elim (Bool-cases (leb needed q.num_blocks_allocated)) [
    | inl done ↦ rw (done, grow_body) (covered s q h (ground (arith, done)))
    | inr more ↦
        rw (more, grow_body)
          (Returns-bind (OneMore i row q s) (Ensured needed i row)
            (append_blocks (reclaim_fn_of s.prefix_cache) q.kv_slot_id 1
              (s.prefix_cache, pool_of s))
            (answer again needed i q s) (append_blocks-OneMore i row q s h)
            (go (ground (arith, more))))
  ]

pub answer-got :
    (again : Scheduler → Option (Scheduler × Bool)) (needed i : ℕ) (q : Sequence) (s : Scheduler)
    (cache : Option PrefixCache) (a : BlockAllocator)
    → answer again needed i q s ((cache, a), some (q.num_blocks_allocated + 1))
      ≡ again (with_running i (longer q) (appended cache a s))
answer-got again needed i q s cache a =
    let e : leb (q.num_blocks_allocated + 1) q.num_blocks_allocated ≡ false = ground arith in
    rw (e, answer) refl

supplied_answer :
    (fuel needed i row : ℕ) (q : Sequence) (s : Scheduler)
    → needed ≤ (pool_of s).max_blocks_per_seq
    → needed ≤ q.num_blocks_allocated + free_block_count (pool_of s)
    → needed < q.num_blocks_allocated + suc fuel
    → q.num_blocks_allocated < needed
    → (r : (Option PrefixCache × BlockAllocator) × Option ℕ) → OneMore i row q s r
    → ((q' : Sequence) (s' : Scheduler)
        → Holds i row q' s'
        → needed ≤ (pool_of s').max_blocks_per_seq
        → needed ≤ q'.num_blocks_allocated + free_block_count (pool_of s')
        → 0 < fuel
        → needed < q'.num_blocks_allocated + fuel
        → Returns (grow_to fuel needed i s') (Ensured needed i row))
    → Returns (answer (grow_to fuel needed i) needed i q s r) (Ensured needed i row)
supplied_answer fuel needed i row q s fits supply left more _ (got cache a holds rows width free)
      rest =
    subst (λ o. Returns o (Ensured needed i row))
      (sym (answer-got (grow_to fuel needed i) needed i q s cache a))
      (rest (longer q) (with_running i (longer q) (appended cache a s)) holds
        (omega (arith, fits, width)) (omega (arith, supply, free)) (omega (arith, left, more))
        (omega (arith, left)))
supplied_answer fuel needed i row q s fits supply left more _
      (none_left cache a holds rows width why) rest =
    elim why [
      | inl wide ↦ absurd (omega (arith, wide, fits, more))
      | inr few ↦ absurd (omega (arith, few, supply, more))
    ]

-- With enough free blocks the loop adds them one after the other.
pub grow_supplied :
    (fuel needed i row : ℕ) (q : Sequence) (s : Scheduler)
    → Holds i row q s
    → needed ≤ (pool_of s).max_blocks_per_seq
    → needed ≤ q.num_blocks_allocated + free_block_count (pool_of s)
    → 0 < fuel
    → needed < q.num_blocks_allocated + fuel
    → Returns (grow_to fuel needed i s) (Ensured needed i row)
unfolding grow_to
grow_supplied zero needed i row q s h fits supply some_fuel left = absurd (omega (arith, some_fuel))
grow_supplied (suc fuel) needed i row q s h fits supply some_fuel left =
    subst (λ o. Returns o (Ensured needed i row)) (sym (grow_to-body fuel needed i q s h.present))
      (round-Ensured (grow_to fuel needed i) needed i row q s h (λ more r one.
        supplied_answer fuel needed i row q s fits supply left more r one
          (grow_supplied fuel needed i row)))
