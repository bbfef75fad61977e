-- ===== src/BlockAllocator/Dropping.antt =====
-- drop_ref: one reference to a block is dropped.
use llm_steady_infer.Base.{
  ℕ, ◌+◌, ◌-◌, ◌≤◌, ◌<◌, ◌≡◌, refl, arith, ◌==◌, if◌then◌else◌, count, update, update_self, Returns,
  inl, inr, Bool-cases, lt→ltb, ◌∙◌,
}
use llm_steady_infer.BlockAllocator.{BlockAllocator, drop_ref, release_block}
use llm_steady_infer.BlockAllocator.Invariant.{is_free}

-- Only the free list and the counts may differ.
pub record SamePool (a a' : BlockAllocator) : Type 0 where
  pub same_num_blocks : a'.num_blocks ≡ a.num_blocks
  pub same_num_rows : a'.num_rows ≡ a.num_rows
  pub same_width : a'.max_blocks_per_seq ≡ a.max_blocks_per_seq
  pub same_block_size : a'.block_size ≡ a.block_size
  pub same_tables : a'.block_tables ≡ a.block_tables
  pub same_busy : a'.row_busy ≡ a.row_busy
  pub same_cached : a'.cached ≡ a.cached

pub SamePool-refl : (a : BlockAllocator) → SamePool a a
SamePool-refl a = record {
  same_num_blocks = refl;
  same_num_rows = refl;
  same_width = refl;
  same_block_size = refl;
  same_tables = refl;
  same_busy = refl;
  same_cached = refl;
}

pub SamePool-trans : {a b c : BlockAllocator} → SamePool a b → SamePool b c → SamePool a c
SamePool-trans p q = record {
  same_num_blocks = q.same_num_blocks ∙ p.same_num_blocks;
  same_num_rows = q.same_num_rows ∙ p.same_num_rows;
  same_width = q.same_width ∙ p.same_width;
  same_block_size = q.same_block_size ∙ p.same_block_size;
  same_tables = q.same_tables ∙ p.same_tables;
  same_busy = q.same_busy ∙ p.same_busy;
  same_cached = q.same_cached ∙ p.same_cached;
}

-- The half of the invariant that holds while a row is being dropped.
pub record InState (a : BlockAllocator) : Type 0 where
  pub free_once : (b : ℕ) → count b a.free_blocks ≡ (if is_free a b then 1 else 0)
  pub in_pool : (b : ℕ) → a.num_blocks ≤ b → a.ref_counts b ≡ 0

-- One reference to `b` is dropped.
pub record Dropped (b : ℕ) (a a' : BlockAllocator) : Type 0 where
  pub state : InState a'
  pub same : SamePool a a'
  pub refs : (x : ℕ) → a'.ref_counts x + (if b == x then 1 else 0) ≡ a.ref_counts x

module _ (b : ℕ) (a : BlockAllocator) (s : InState a) (h : 0 < a.ref_counts b) where
  abbrev lowered : BlockAllocator
  lowered = record a { ref_counts = update a.ref_counts b (a.ref_counts b - 1) }

  in_range : b < a.num_blocks
  in_range = ground (arith, s.in_pool b)

  lowered-Dropped : InState lowered → Dropped b a lowered
  lowered-Dropped s' = record {
    state = s';
    same = record {
      same_num_blocks = refl;
      same_num_rows = refl;
      same_width = refl;
      same_block_size = refl;
      same_tables = refl;
      same_busy = refl;
      same_cached = refl;
    };
    refs = λ x. ground (arith, h);
  }

  released : Dropped b a (if a.ref_counts b - 1 == 0 then release_block b lowered else lowered)
  unfolding release_block
  released = elim (Bool-cases (a.ref_counts b - 1 == 0)) [
    | inr more ↦ rw more (
        lowered-Dropped (record {
          free_once = λ x. ground (arith, s.free_once x);
          in_pool = λ x. ground (arith, s.in_pool x, in_range);
        }))
    | inl last ↦ rw last (elim (Bool-cases (a.cached b)) [
      | inl kept ↦ rw kept (
          lowered-Dropped (record {
            free_once = λ x. ground (arith, s.free_once x);
            in_pool = λ x. ground (arith, s.in_pool x, in_range);
          }))
      | inr gone ↦ rw gone (record {
        state = record {
          free_once = λ x. ground (arith, s.free_once x, in_range);
          in_pool = λ x. ground (arith, s.in_pool x, in_range);
        };
        same = record {
          same_num_blocks = refl;
          same_num_rows = refl;
          same_width = refl;
          same_block_size = refl;
          same_tables = refl;
          same_busy = refl;
          same_cached = refl;
        };
        refs = λ x. ground (arith, h);
      })
    ])
  ]

  pub drop_ref-Dropped : Returns (drop_ref b a) (Dropped b a)
  unfolding drop_ref
  drop_ref-Dropped =
      rw (lt→ltb 0 (a.ref_counts b) h, update_self a.ref_counts b (a.ref_counts b - 1)) released
