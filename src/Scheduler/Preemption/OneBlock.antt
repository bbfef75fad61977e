-- ===== src/Scheduler/Preemption/OneBlock.antt =====
-- ensure_blocks_for: one call of append_blocks for a sequence that mounts its blocks.
use llm_steady_infer.Base.{
  ℕ, zero, suc, ◌+◌, ◌≤◌, ◌<◌, ◌≡◌, refl, sym, ap, subst, ◌∙◌, inl, inr, ◌⊎◌, Bool, true, false,
  Option, none, some, List, [], ◌∷◌, length, length-append, length-take, length-drop, take,
  get_elem?, set, All, arith, Returns, Returns-mono,
}
use llm_steady_infer.BlockAllocator.{BlockAllocator, Row, blocks_of, append_blocks, num_used_blocks}
use llm_steady_infer.BlockAllocator.Invariant.{Inv}
use llm_steady_infer.BlockAllocator.Reclaim.{
  Appended, AppendPost, append_blocks-Appended, used-blocks, refused, grown,
}
use llm_steady_infer.PrefixCache.{PrefixCache}
use llm_steady_infer.Sequence.{Sequence}
use llm_steady_infer.Scheduler.State.{Scheduler, reclaim_fn_of}
use llm_steady_infer.Scheduler.State.Hook.{HookOk, reclaim_fn_of-IsHook}
use llm_steady_infer.Scheduler.Preemption.{pool_of, with_pool, with_running}

-- The sequence `q`, at index `i`, mounts as many blocks on its row as it says.
pub record Holds (i row : ℕ) (q : Sequence) (s : Scheduler) : Type 0 where
  pub pool : Inv (pool_of s)
  pub hook : HookOk s.prefix_cache (pool_of s)
  pub present : get_elem? s.running_sequences i ≡ some q
  pub slot : q.kv_slot_id ≡ some row
  pub in_range : row < (pool_of s).num_rows
  pub owned : (pool_of s).row_busy row ≡ true
  pub used : length (blocks_of ((pool_of s).block_tables row)) ≡ q.num_blocks_allocated

-- The results of ensure_blocks_for.
pub data Ensured (needed i row : ℕ) : Scheduler × Bool → Type 0 where
  covered :
      (s' : Scheduler) (q' : Sequence)
      → Holds i row q' s'
      → needed ≤ q'.num_blocks_allocated
      → Ensured needed i row (s', true)
  too_few :
      (s' : Scheduler) (q' : Sequence)
      → Holds i row q' s'
      → q'.num_blocks_allocated < needed
      → Ensured needed i row (s', false)

-- The state behind a call of append_blocks, and the sequence with one block more.
abbrev pub appended : Option PrefixCache → BlockAllocator → Scheduler → Scheduler
appended cache a s = with_pool a (record s { prefix_cache = cache })

abbrev pub longer : Sequence → Sequence
longer q = record q { num_blocks_allocated = q.num_blocks_allocated + 1 }

pub HookOk-size :
    (cache : Option PrefixCache) (a a' : BlockAllocator)
    → a'.num_blocks ≡ a.num_blocks
    → HookOk cache a
    → HookOk cache a'
HookOk-size none a a' e h = tt
HookOk-size (some c) a a' e h = subst (λ n. All (λ entry. entry.block_id < n) c.entries) (sym e) h

get_elem?-set_self :
    {A : Type 0} (xs : List A) (i : ℕ) (a b : A)
    → get_elem? xs i ≡ some a
    → get_elem? (set xs i b) i ≡ some b
get_elem?-set_self [] i a b h = ground (arith, h)
get_elem?-set_self (x ∷ xs) zero a b h = refl
get_elem?-set_self (x ∷ xs) (suc i) a b h = get_elem?-set_self xs i a b h

-- One block is asked for.
pub data OneMore (i row : ℕ) (q : Sequence) (s : Scheduler)
    : (Option PrefixCache × BlockAllocator) × Option ℕ → Type 0 where
  got :
      (cache : Option PrefixCache) (a : BlockAllocator)
      → Holds i row (longer q) (with_running i (longer q) (appended cache a s))
      → a.num_rows ≡ (pool_of s).num_rows
      → a.max_blocks_per_seq ≡ (pool_of s).max_blocks_per_seq
      → length (pool_of s).free_blocks ≤ length a.free_blocks + 1
      → OneMore i row q s ((cache, a), some (q.num_blocks_allocated + 1))
  none_left :
      (cache : Option PrefixCache) (a : BlockAllocator)
      → Holds i row q (appended cache a s)
      → a.num_rows ≡ (pool_of s).num_rows
      → a.max_blocks_per_seq ≡ (pool_of s).max_blocks_per_seq
      → ((pool_of s).max_blocks_per_seq < q.num_blocks_allocated + 1)
        ⊎ (length (pool_of s).free_blocks < 1)
      → OneMore i row q s ((cache, a), none)

module _ (i row : ℕ) (q : Sequence) (s : Scheduler) (h : Holds i row q s) where
  used_before : num_used_blocks (pool_of s) (some row) ≡ q.num_blocks_allocated
  used_before =
      used-blocks HookOk (reclaim_fn_of s.prefix_cache) (reclaim_fn_of-IsHook s.prefix_cache) row 1
        s.prefix_cache (pool_of s) h.hook h.pool h.in_range h.owned
      ∙ h.used

  one_more :
      (cache : Option PrefixCache) (a' : BlockAllocator) (r : Option ℕ)
      → Inv a'
      → Appended HookOk row 1 (pool_of s) cache a' r
      → OneMore i row q s ((cache, a'), r)
  one_more cache a' r v (refused e k g why) = rw e (
      none_left cache a'
        (record {
          pool = v;
          hook = k;
          present = h.present;
          slot = h.slot;
          in_range = omega (arith, h.in_range, g.same_num_rows);
          owned = ap (λ f. f row) g.same_busy ∙ h.owned;
          used = ap (λ (t : ℕ → Row). length (blocks_of (t row))) g.same_tables ∙ h.used;
        })
        g.same_num_rows g.same_width
        (elim why [
          | inl zero_asked ↦ absurd (omega (arith, zero_asked))
          | inr rest ↦ elim rest [
            | inl wide ↦ inl (omega (arith, wide, used_before))
            | inr few ↦ inr (omega (arith, few, g.more_free))
          ]
        ]))
  one_more cache a' r v (grown a₁ e k g grows) =
      subst (λ o. OneMore i row q s ((cache, a'), o)) (sym (e ∙ ap (λ n. some (n + 1)) used_before))
        (got cache a'
          (record {
            pool = v;
            hook = HookOk-size cache a₁ a' grows.same_num_blocks k;
            present = get_elem?-set_self s.running_sequences i q (longer q) h.present;
            slot = h.slot;
            in_range = omega (arith, h.in_range, g.same_num_rows, grows.same_num_rows);
            owned = ap (λ f. f row) grows.same_busy ∙ ap (λ f. f row) g.same_busy ∙ h.owned;
            used = omega (
              arith,
              ap length grows.mounted,
              length-append (blocks_of (a₁.block_tables row)) (take 1 a₁.free_blocks),
              length-take 1 a₁.free_blocks,
              grows.supplied,
              ap (λ (t : ℕ → Row). length (blocks_of (t row))) g.same_tables,
              h.used,
            );
          })
          (grows.same_num_rows ∙ g.same_num_rows) (grows.same_width ∙ g.same_width)
          (omega (arith, g.more_free, ap length grows.left, length-drop 1 a₁.free_blocks)))

  pub append_blocks-OneMore :
      Returns
        (append_blocks (reclaim_fn_of s.prefix_cache) q.kv_slot_id 1 (s.prefix_cache, pool_of s))
        (OneMore i row q s)
  append_blocks-OneMore =
      subst
        (λ k.
          Returns (append_blocks (reclaim_fn_of s.prefix_cache) k 1 (s.prefix_cache, pool_of s))
            (OneMore i row q s))
        (sym h.slot)
        (Returns-mono
          (AppendPost HookOk (reclaim_fn_of s.prefix_cache) (reclaim_fn_of-IsHook s.prefix_cache)
            row 1 s.prefix_cache (pool_of s) h.hook h.pool h.in_range h.owned)
          (OneMore i row q s)
          (append_blocks (reclaim_fn_of s.prefix_cache) (some row) 1 (s.prefix_cache, pool_of s))
          (append_blocks-Appended HookOk (reclaim_fn_of s.prefix_cache)
            (reclaim_fn_of-IsHook s.prefix_cache) row 1 s.prefix_cache (pool_of s) h.hook h.pool
            h.in_range h.owned)
          (λ ((cache, a'), r) p. one_more cache a' r p.0 p.1))
