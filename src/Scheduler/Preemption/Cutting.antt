-- ===== src/Scheduler/Preemption/Cutting.antt =====
-- try_preempt_for: what cutting a list of victims does to the pool and to the others.
use llm_steady_infer.Base.{
  ℕ, zero, suc, ◌+◌, ◌≤◌, ◌<◌, ◌≡◌, ◌≢◌, refl, sym, ◌∙◌, true, some, List, [], ◌∷◌, length,
  get_elem?, set, arith, Returns, Returns-bind, Returns-mono, Returns-both,
}
use llm_steady_infer.BlockAllocator.{free_blocks_from, reclaimable_blocks_from, free_block_count}
use llm_steady_infer.BlockAllocator.Invariant.{Inv}
use llm_steady_infer.BlockAllocator.Release.{Freed, FreePost, free_blocks_from-Freed}
use llm_steady_infer.BlockAllocator.Gain.{free_blocks_from-gain}
use llm_steady_infer.BlockAllocator.Shrink.{reclaimable_blocks_from-others}
use llm_steady_infer.Sequence.{Sequence, is_running}
use llm_steady_infer.Scheduler.State.{Scheduler}
use llm_steady_infer.Scheduler.Preemption.{pool_of, truncate_sequence, truncate_all}
use llm_steady_infer.Scheduler.Preemption.Planning.{total_gain}

-- The sequence at an index owns a row of the pool.
pub record OwnsRow (s : Scheduler) (i row : ℕ) : Type 0 where
  pub seq : Sequence
  pub present : get_elem? s.running_sequences i ≡ some seq
  pub slot : seq.kv_slot_id ≡ some row
  pub in_range : row < (pool_of s).num_rows

-- The pool is in order, every running sequence owns a row, and no two own the same.
pub record RowsOk (s : Scheduler) : Type 0 where
  pub pool : Inv (pool_of s)
  pub has_row :
      (i : ℕ) (q : Sequence)
      → get_elem? s.running_sequences i ≡ some q
      → is_running q ≡ true
      → (row : ℕ) × (q.kv_slot_id ≡ some row) × (row < (pool_of s).num_rows)
  pub own_row :
      (i j : ℕ) (p q : Sequence) (row : ℕ)
      → get_elem? s.running_sequences i ≡ some p
      → get_elem? s.running_sequences j ≡ some q
      → is_running p ≡ true
      → is_running q ≡ true
      → p.kv_slot_id ≡ some row
      → q.kv_slot_id ≡ some row
      → i ≡ j

-- The victim at `i` with row `row` shares neither with a victim in the list.
abbrev pub Away : Scheduler → ℕ → ℕ → List (ℕ × ℕ) → Type 0
Away s i row [] = Unit
Away s i row ((j, keep) ∷ vs) = ((i ≢ j) × ((r : ℕ) → OwnsRow s j r → r ≢ row)) × Away s i row vs

abbrev pub Targets : Scheduler → List (ℕ × ℕ) → Type 0
Targets s [] = Unit
Targets s ((i, keep) ∷ vs) = ((row : ℕ) × OwnsRow s i row × Away s i row vs) × Targets s vs

-- One victim is cut.
record OneCut (i row keep : ℕ) (s s' : Scheduler) : Type 0 where
  inv : Inv (pool_of s')
  freed : Freed keep row (pool_of s) (pool_of s')
  gain :
      length (pool_of s').free_blocks
      ≡ length (pool_of s).free_blocks + reclaimable_blocks_from (some row) keep (pool_of s)
  elsewhere : (j : ℕ) → i ≢ j → get_elem? s'.running_sequences j ≡ get_elem? s.running_sequences j
  pub same_cache : s'.prefix_cache ≡ s.prefix_cache

get_elem?-set_other :
    {A : Type 0} (xs : List A) (i j : ℕ) (b : A) → i ≢ j → get_elem? (set xs i b) j ≡ get_elem? xs j
get_elem?-set_other [] i j b ne = refl
get_elem?-set_other (x ∷ xs) zero zero b ne = absurd (ne refl)
get_elem?-set_other (x ∷ xs) zero (suc j) b ne = refl
get_elem?-set_other (x ∷ xs) (suc i) zero b ne = refl
get_elem?-set_other (x ∷ xs) (suc i) (suc j) b ne =
    get_elem?-set_other xs i j b (λ e. ne (ground (arith, e)))

truncate_sequence-OneCut :
    (i row keep : ℕ) (s : Scheduler)
    → Inv (pool_of s)
    → OwnsRow s i row
    → Returns (truncate_sequence i keep s) (OneCut i row keep s)
unfolding truncate_sequence
truncate_sequence-OneCut i row keep s inv o =
    rw (o.present, o.slot, truncate_sequence)
      (Returns-bind
        (λ a.
          FreePost keep row (pool_of s) inv o.in_range a
          × (length a.free_blocks
              ≡ length (pool_of s).free_blocks
                + reclaimable_blocks_from (some row) keep (pool_of s)))
        (OneCut i row keep s) (free_blocks_from (some row) keep (pool_of s)) _
        (Returns-both (FreePost keep row (pool_of s) inv o.in_range)
          (λ a.
            length a.free_blocks
            ≡ length (pool_of s).free_blocks + reclaimable_blocks_from (some row) keep (pool_of s))
          (free_blocks_from (some row) keep (pool_of s))
          (free_blocks_from-Freed keep row (pool_of s) inv o.in_range)
          (free_blocks_from-gain keep row (pool_of s) inv o.in_range))
        (λ a p. record {
          inv = p.0.0;
          freed = p.0.1;
          gain = p.1;
          elsewhere = λ j ne. get_elem?-set_other s.running_sequences i j _ ne;
          same_cache = refl;
        }))

module _ (i row keep : ℕ) (s s' : Scheduler) (inv : Inv (pool_of s))
    (c : OneCut i row keep s s') where
  OwnsRow-later : (j r : ℕ) → i ≢ j → OwnsRow s j r → OwnsRow s' j r
  OwnsRow-later j r ne o = record {
    seq = o.seq;
    present = c.elsewhere j ne ∙ o.present;
    slot = o.slot;
    in_range = omega (arith, o.in_range, c.freed.same_num_rows);
  }

  OwnsRow-before : (j r : ℕ) → i ≢ j → OwnsRow s' j r → OwnsRow s j r
  OwnsRow-before j r ne o = record {
    seq = o.seq;
    present = sym (c.elsewhere j ne) ∙ o.present;
    slot = o.slot;
    in_range = omega (arith, o.in_range, c.freed.same_num_rows);
  }

  Away-later : (j r : ℕ) (vs : List (ℕ × ℕ)) → Away s i row vs → Away s j r vs → Away s' j r vs
  Away-later j r [] h k = tt
  Away-later j r ((j', keep') ∷ vs) h k =
      ((k.0.0, λ r' o. k.0.1 r' (OwnsRow-before j' r' h.0.0 o)), Away-later j r vs h.1 k.1)

  Targets-later : (vs : List (ℕ × ℕ)) → Away s i row vs → Targets s vs → Targets s' vs
  Targets-later [] h t = tt
  Targets-later ((j, keep') ∷ vs) h t =
      let (r, o, away) = t.0 in
      ((r, OwnsRow-later j r h.0.0 o, Away-later j r vs h.1 away), Targets-later vs h.1 t.1)

  total_gain-later :
      (vs : List (ℕ × ℕ)) → Away s i row vs → Targets s vs → total_gain s vs ≤ total_gain s' vs
  total_gain-later [] h t = omega arith
  total_gain-later ((j, keep') ∷ vs) h t =
      let (r, o, away) = t.0 in
      let later = c.elsewhere j h.0.0 ∙ o.present in
      rw (o.present, later, o.slot)
        (omega (
          arith,
          total_gain-later vs h.1 t.1,
          reclaimable_blocks_from-others keep row (pool_of s) (pool_of s') inv c.inv c.freed r keep'
              (h.0.1 r o) o.in_range,
        ))

-- What is not among the victims stays.
pub record Untouched (s s' : Scheduler) (j r : ℕ) : Type 0 where
  pub same_seq : get_elem? s'.running_sequences j ≡ get_elem? s.running_sequences j
  pub same_table : (pool_of s').block_tables r ≡ (pool_of s).block_tables r
  pub same_owner : (pool_of s').row_busy r ≡ (pool_of s).row_busy r

-- What cutting all the victims leaves.
pub record CutAll (vs : List (ℕ × ℕ)) (s s' : Scheduler) : Type 0 where
  pub inv : Inv (pool_of s')
  pub gain : free_block_count (pool_of s) + total_gain s vs ≤ free_block_count (pool_of s')
  pub same_num_blocks : (pool_of s').num_blocks ≡ (pool_of s).num_blocks
  pub same_num_rows : (pool_of s').num_rows ≡ (pool_of s).num_rows
  pub same_width : (pool_of s').max_blocks_per_seq ≡ (pool_of s).max_blocks_per_seq
  pub same_cache : s'.prefix_cache ≡ s.prefix_cache
  pub untouched : (j r : ℕ) → Away s j r vs → Untouched s s' j r

pub truncate_all-CutAll :
    (vs : List (ℕ × ℕ)) (s : Scheduler)
    → Inv (pool_of s)
    → Targets s vs
    → Returns (truncate_all vs s) (CutAll vs s)
unfolding truncate_all
truncate_all-CutAll [] s inv t = record {
  inv = inv;
  gain = omega arith;
  same_num_blocks = refl;
  same_num_rows = refl;
  same_width = refl;
  same_cache = refl;
  untouched = λ j r h. record { same_seq = refl; same_table = refl; same_owner = refl };
}
truncate_all-CutAll ((i, keep) ∷ vs) s inv t =
    let (row, o, away) = t.0 in
    Returns-bind (OneCut i row keep s) (CutAll ((i, keep) ∷ vs) s) (truncate_sequence i keep s) _
      (truncate_sequence-OneCut i row keep s inv o)
      (λ s₁ c.
        Returns-mono (CutAll vs s₁) (CutAll ((i, keep) ∷ vs) s) (truncate_all vs s₁)
          (truncate_all-CutAll vs s₁ c.inv (Targets-later i row keep s s₁ inv c vs away t.1))
          (λ s' p. record {
            inv = p.inv;
            gain =
                rw (o.present, o.slot)
                  (omega
                    (arith, p.gain, c.gain, total_gain-later i row keep s s₁ inv c vs away t.1));
            same_num_blocks = p.same_num_blocks ∙ c.freed.same_num_blocks;
            same_num_rows = p.same_num_rows ∙ c.freed.same_num_rows;
            same_width = p.same_width ∙ c.freed.same_width;
            same_cache = p.same_cache ∙ c.same_cache;
            untouched = λ j r h.
                let u = p.untouched j r (Away-later i row keep s s₁ inv c j r vs away h.1) in
                let off : r ≢ row = (λ e. h.0.1 row o (sym e)) in
                record {
                  same_seq = u.same_seq ∙ c.elsewhere j (λ e. h.0.0 (sym e));
                  same_table = u.same_table ∙ c.freed.others r off;
                  same_owner = u.same_owner ∙ c.freed.owners r off;
                };
          }))
