-- ===== src/Scheduler/Preemption/Ensuring.antt =====
-- ensure_blocks_for: the loop ends, and the sequence has its blocks or there are none to be had.
use mathlib.Core.Option.{some-injective}
use llm_steady_infer.Base.{
  ℕ, zero, suc, ◌+◌, ◌-◌, ◌*◌, ◌/◌, ◌≤◌, ◌<◌, ◌≡◌, refl, sym, ap, subst, ◌∙◌, inl, inr, Bool, true,
  Bool-cases, Option, some, List, [], ◌∷◌, length, get_elem?, set, All, arith, ltb, eq→==, Returns,
  Returns-bind,
}
use llm_steady_infer.BlockAllocator.{BlockAllocator, blocks_of, length-blocks_of-le}
use llm_steady_infer.BlockAllocator.Invariant.{Inv}
use llm_steady_infer.PrefixCache.{PrefixCache}
use llm_steady_infer.Sequence.{Sequence, is_running}
use llm_steady_infer.Scheduler.State.{Scheduler}
use llm_steady_infer.Scheduler.State.Hook.{HookOk}
use llm_steady_infer.Scheduler.Preemption.{
  pool_of, with_running, grow_to, ensure_blocks_for, try_preempt_for,
}
use llm_steady_infer.Scheduler.Preemption.Cutting.{RowsOk}
use llm_steady_infer.Scheduler.Preemption.Freeing.{
  Preempted, Spared, enough, short, try_preempt_for-Preempted,
}
use llm_steady_infer.Scheduler.Preemption.OneBlock.{
  Ensured, Holds, HookOk-size, OneMore, appended, got, longer, none_left, too_few,
}
use llm_steady_infer.Scheduler.Preemption.Rounds.{
  answer, answer-got, grow_supplied, grow_to-body, keep_on, round-Ensured,
}

-- What ensure_blocks_for finds at the sequence `q`, at index `i`.
pub record Ready (i row : ℕ) (q : Sequence) (s : Scheduler) : Type 0 where
  pub holds : Holds i row q s
  pub rows : RowsOk s
  pub runs : is_running q ≡ true
  pub sized : 0 < s.block_size
  pub prompts : All (λ p. 0 < p.num_prompt_tokens) s.running_sequences

All-get :
    (P : Sequence → Type 0) (xs : List Sequence) (i : ℕ) (q : Sequence)
    → get_elem? xs i ≡ some q
    → All P xs
    → P q
All-get P [] i q at h = absurd (ground (arith, at))
All-get P (x ∷ xs) zero q at h = subst P (some-injective x q at) h.0
All-get P (x ∷ xs) (suc i) q at h = All-get P xs i q at h.1

All-set :
    (P : Sequence → Type 0) (xs : List Sequence) (i : ℕ) (q : Sequence)
    → P q
    → All P xs
    → All P (set xs i q)
All-set P [] i q new h = tt
All-set P (x ∷ xs) zero q new h = (new, h.1)
All-set P (x ∷ xs) (suc i) q new h = (h.0, All-set P xs i q new h.1)

-- The sequence that stands at `j` with the longer one put in at `i` has the slot and the state of
-- the one that stood there.
record WasThere (xs : List Sequence) (j : ℕ) (p : Sequence) : Type 0 where
  before : Sequence
  at_before : get_elem? xs j ≡ some before
  same_slot : before.kv_slot_id ≡ p.kv_slot_id
  same_state : is_running before ≡ is_running p

set-WasThere :
    (xs : List Sequence) (i j : ℕ) (q p : Sequence)
    → get_elem? xs i ≡ some q
    → get_elem? (set xs i (longer q)) j ≡ some p
    → WasThere xs j p
set-WasThere [] i j q p at now = absurd (ground (arith, at))
set-WasThere (x ∷ xs) zero zero q p at now = record {
  before = q;
  at_before = at;
  same_slot = ap (λ y. y.kv_slot_id) (some-injective (longer q) p now);
  same_state = ap is_running (some-injective (longer q) p now);
}
set-WasThere (x ∷ xs) zero (suc j) q p at now = record {
  before = p;
  at_before = now;
  same_slot = refl;
  same_state = refl;
}
set-WasThere (x ∷ xs) (suc i) zero q p at now = record {
  before = p;
  at_before = now;
  same_slot = refl;
  same_state = refl;
}
set-WasThere (x ∷ xs) (suc i) (suc j) q p at now =
    let w = set-WasThere xs i j q p at now in
    record {
      before = w.before;
      at_before = w.at_before;
      same_slot = w.same_slot;
      same_state = w.same_state;
    }

module _ (i row : ℕ) (q : Sequence) (s : Scheduler) (ready : Ready i row q s)
    (cache : Option PrefixCache) (a : BlockAllocator)
    (same_rows : a.num_rows ≡ (pool_of s).num_rows) where
  RowsOk-appended : Inv a → RowsOk (appended cache a s)
  RowsOk-appended v = record {
    pool = v;
    has_row = λ j p at runs.
        let (r, slot, lt) = ready.rows.has_row j p at runs in
        (r, slot, omega (arith, lt, same_rows));
    own_row = ready.rows.own_row;
  }

  RowsOk-longer : Inv a → RowsOk (with_running i (longer q) (appended cache a s))
  RowsOk-longer v = record {
    pool = v;
    has_row = λ j p at runs.
        let w = set-WasThere s.running_sequences i j q p ready.holds.present at in
        let (r, slot, lt) = ready.rows.has_row j w.before w.at_before (w.same_state ∙ runs) in
        (r, sym w.same_slot ∙ slot, omega (arith, lt, same_rows));
    own_row = λ j k p p' r at at' runs runs' slot slot'.
        let w = set-WasThere s.running_sequences i j q p ready.holds.present at in
        let w' = set-WasThere s.running_sequences i k q p' ready.holds.present at' in
        ready.rows.own_row j k w.before w'.before r w.at_before w'.at_before (w.same_state ∙ runs)
          (w'.same_state ∙ runs') (w.same_slot ∙ slot) (w'.same_slot ∙ slot');
  }

  Ready-longer :
      Holds i row (longer q) (with_running i (longer q) (appended cache a s))
      → Ready i row (longer q) (with_running i (longer q) (appended cache a s))
  Ready-longer h = record {
    holds = h;
    rows = RowsOk-longer h.pool;
    runs = ready.runs;
    sized = ready.sized;
    prompts =
        All-set (λ p. 0 < p.num_prompt_tokens) s.running_sequences i (longer q)
          (All-get (λ p. 0 < p.num_prompt_tokens) s.running_sequences i q ready.holds.present
            ready.prompts)
          ready.prompts;
  }

  -- After preemption has made room.
  Holds-preempted :
      (s₂ : Scheduler)
      → Holds i row q (appended cache a s)
      → Inv (pool_of s₂)
      → Spared q.id (appended cache a s) s₂
      → Holds i row q s₂
  Holds-preempted s₂ h v sp =
      let u = sp.spared i row q h.present ready.runs (eq→== q.id q.id refl) h.slot in
      record {
        pool = v;
        hook =
            subst (λ c. HookOk c (pool_of s₂)) (sym sp.same_cache)
              (HookOk-size cache a (pool_of s₂) sp.same_num_blocks h.hook);
        present = u.same_seq ∙ h.present;
        slot = h.slot;
        in_range = omega (arith, h.in_range, sp.same_num_rows);
        owned = u.same_owner ∙ h.owned;
        used = ap (λ es. length (blocks_of es)) u.same_table ∙ h.used;
      }

Preempted-then :
    (fuel needed i row : ℕ) (q : Sequence) (s : Scheduler)
    → Ready i row q s
    → (cache : Option PrefixCache) (a : BlockAllocator) → a.num_rows ≡ (pool_of s).num_rows
    → a.max_blocks_per_seq ≡ (pool_of s).max_blocks_per_seq
    → needed ≤ (pool_of s).max_blocks_per_seq
    → needed + 1 < q.num_blocks_allocated + suc fuel
    → q.num_blocks_allocated < needed
    → Holds i row q (appended cache a s)
    → (r : Scheduler × Bool)
    → Preempted (needed - q.num_blocks_allocated) q.id (appended cache a s) r
    → Returns (keep_on (grow_to fuel needed i) r) (Ensured needed i row)
Preempted-then fuel needed i row q s ready cache a rows width fits left more holds _
      (enough s₂ v supply sp) =
    grow_supplied fuel needed i row q s₂
      (Holds-preempted i row q s ready cache a rows s₂ holds v sp)
      (omega (arith, fits, width, sp.same_width)) (omega (arith, supply))
      (omega (arith, left, more)) (omega (arith, left))
Preempted-then fuel needed i row q s ready cache a rows width fits left more holds _ (short few) =
    too_few (appended cache a s) q holds more

any_answer :
    (fuel needed i row : ℕ) (q : Sequence) (s : Scheduler)
    → Ready i row q s
    → needed ≤ (pool_of s).max_blocks_per_seq
    → needed + 1 < q.num_blocks_allocated + suc fuel
    → q.num_blocks_allocated < needed
    → (r : (Option PrefixCache × BlockAllocator) × Option ℕ) → OneMore i row q s r
    → ((q' : Sequence) (s' : Scheduler)
        → Ready i row q' s'
        → needed ≤ (pool_of s').max_blocks_per_seq
        → 0 < fuel
        → needed + 1 < q'.num_blocks_allocated + fuel
        → Returns (grow_to fuel needed i s') (Ensured needed i row))
    → Returns (answer (grow_to fuel needed i) needed i q s r) (Ensured needed i row)
any_answer fuel needed i row q s ready fits left more _ (got cache a holds rows width free) rest =
    subst (λ o. Returns o (Ensured needed i row))
      (sym (answer-got (grow_to fuel needed i) needed i q s cache a))
      (rest (longer q) (with_running i (longer q) (appended cache a s))
        (Ready-longer i row q s ready cache a rows holds) (omega (arith, fits, width))
        (omega (arith, left, more)) (omega (arith, left)))
any_answer fuel needed i row q s ready fits left more _ (none_left cache a holds rows width why)
      rest =
    Returns-bind (Preempted (needed - q.num_blocks_allocated) q.id (appended cache a s))
      (Ensured needed i row)
      (try_preempt_for (needed - q.num_blocks_allocated) q.id (appended cache a s))
      (keep_on (grow_to fuel needed i))
      (try_preempt_for-Preempted (needed - q.num_blocks_allocated) q.id (appended cache a s)
        (RowsOk-appended i row q s ready cache a rows holds.pool) ready.sized ready.prompts)
      (λ r p.
        Preempted-then fuel needed i row q s ready cache a rows width fits left more holds r p)

grow_any :
    (fuel needed i row : ℕ) (q : Sequence) (s : Scheduler)
    → Ready i row q s
    → needed ≤ (pool_of s).max_blocks_per_seq
    → 0 < fuel
    → needed + 1 < q.num_blocks_allocated + fuel
    → Returns (grow_to fuel needed i s) (Ensured needed i row)
unfolding grow_to
grow_any zero needed i row q s ready fits some_fuel left = absurd (omega (arith, some_fuel))
grow_any (suc fuel) needed i row q s ready fits some_fuel left =
    subst (λ o. Returns o (Ensured needed i row))
      (sym (grow_to-body fuel needed i q s ready.holds.present))
      (round-Ensured (grow_to fuel needed i) needed i row q s ready.holds (λ more r one.
        any_answer fuel needed i row q s ready fits left more r one (grow_any fuel needed i row)))

-- For a running sequence that mounts its blocks on a row of its own, on a pool in order, with the
-- cache's blocks in the pool and a token in every prompt, ensure_blocks_for returns: its loop ends
-- within the fuel. When it says true, the sequence mounts at least the blocks for the position; when
-- it says false, it mounts fewer. In both cases the pool is in order and the sequence still owns its
-- row, which mounts as many blocks as the sequence says.
pub ensure_blocks_for-Ensured :
    (i row position : ℕ) (q : Sequence) (s : Scheduler)
    → Ready i row q s
    → s.kv_manager.max_blocks_per_seq ≡ (pool_of s).max_blocks_per_seq
    → Returns (ensure_blocks_for i position s) (Ensured (position / s.block_size + 1) i row)
unfolding ensure_blocks_for
ensure_blocks_for-Ensured i row position q s ready width =
    elim (Bool-cases (ltb s.kv_manager.max_blocks_per_seq (position / s.block_size + 1))) [
      | inl wide ↦
          rw (wide, ensure_blocks_for)
            (too_few s q ready.holds (
              ground (
                arith,
                wide,
                width,
                ready.holds.used,
                ready.holds.pool.width row,
                length-blocks_of-le ((pool_of s).block_tables row),
              )))
      | inr fits ↦
          rw (fits, ensure_blocks_for)
            (grow_any (2 * (position / s.block_size + 1) + 1) (position / s.block_size + 1) i row q
              s ready (ground (arith, fits, width)) (omega arith) (omega arith))
    ]
