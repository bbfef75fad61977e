-- ===== src/KvManager/Geometry.antt =====
-- The geometry of the paged pool.
use native.Mathlib.Nat.{lt-div-mul-add, div-mul-le_self, mul-pos}
use llm_steady_infer.Base.{
  ℕ, ◌+◌, ◌-◌, ◌*◌, ◌/◌, ◌≤◌, ◌<◌, ◌≡◌, refl, sym, ◌∙◌, Bool, true, false, Option, none, some, List,
  [], ◌∷◌, length, Returns, Returns-bind, arith,
}
use llm_steady_infer.BlockAllocator.{BlockAllocator, create}
use llm_steady_infer.BlockAllocator.Invariant.{Inv}
use llm_steady_infer.BlockAllocator.SelfCheck.{create-Fresh, Fresh}
use llm_steady_infer.KvManager.{
  Config, KvManager, cuda, k_kv_quant_none, valid_block_size, Pool, layout, all_granted, byte_size,
  construct,
}

-- The pool of a paged cache.
pub record Geometry (g : Config) (m : KvManager) : Type 0 where
  pub paged : m.paged ≡ true
  pub same_block_size : m.block_size ≡ g.block_size
  -- A row has room for max_seq_len tokens, and no whole block more.
  pub room : g.max_seq_len ≤ m.max_blocks_per_seq * m.block_size
  pub tight : m.max_blocks_per_seq * m.block_size < g.max_seq_len + m.block_size
  -- Every row can be full at once.
  pub full : m.num_blocks ≡ g.max_batch * m.max_blocks_per_seq
  pub pool : Inv m.block_allocator
  pub rows : m.block_allocator.num_rows ≡ g.max_batch
  pub blocks : m.block_allocator.num_blocks ≡ m.num_blocks
  pub width : m.block_allocator.max_blocks_per_seq ≡ m.max_blocks_per_seq
  pub all_free : length m.block_allocator.free_blocks ≡ m.num_blocks

ceil-bounds : (n d : ℕ) → 0 < d → (n ≤ (n + d - 1) / d * d) × ((n + d - 1) / d * d < n + d)
ceil-bounds n d h = (
  let up : n + d - 1 < (n + d - 1) / d * d + d = lt-div-mul-add h in omega (arith, up),
  omega (arith, div-mul-le_self (n + d - 1) d),
)

block_size-pos : (n : ℕ) → valid_block_size n ≡ true → 0 < n
unfolding valid_block_size
block_size-pos n h = ground arith

module _ (g : Config) (valid : valid_block_size g.block_size ≡ true) (batch : 0 < g.max_batch)
    (len : 0 < g.max_seq_len) where
  abbrev width : ℕ
  width = (g.max_seq_len + g.block_size - 1) / g.block_size

  block_pos : 0 < g.block_size
  block_pos = block_size-pos g.block_size valid

  width-pos : 0 < width
  width-pos = grind (arith, ceil-bounds g.max_seq_len g.block_size block_pos)

  some_blocks : 0 < g.max_batch * width
  some_blocks = mul-pos batch width-pos

  abbrev LaidOut : ℕ × ℕ × ℕ × BlockAllocator → Type 0
  LaidOut (block_size, w, n, a) =
      (block_size ≡ g.block_size)
      × (w ≡ width)
      × (n ≡ g.max_batch * width)
      × Fresh (g.max_batch * width) g.max_batch width g.block_size a

  layout-LaidOut : g.device ≡ cuda → Returns (layout g) LaidOut
  unfolding layout
  layout-LaidOut on_cuda =
      rw (on_cuda, valid)
        (Returns-bind (Fresh (g.max_batch * width) g.max_batch width g.block_size) LaidOut
          (create (g.max_batch * width) g.max_batch width g.block_size) _
          (create-Fresh (g.max_batch * width) g.max_batch width g.block_size some_blocks block_pos)
          (λ a f. (refl, refl, refl, f)))

all_granted-true :
    (grants : ℕ → Bool) (ps : List (Option Pool))
    → ((bytes : ℕ) → grants bytes ≡ true)
    → all_granted grants ps ≡ true
all_granted-true grants [] h = refl
all_granted-true grants (none ∷ ps) h = all_granted-true grants ps h
all_granted-true grants (some p ∷ ps) h =
    ground (arith, h (byte_size (some p)), all_granted-true grants ps h)

-- On CUDA, without quantization and without LLAMA_KV_WINDOW, a pool is built for every valid
-- block size and positive sizes if the device grants the memory, and it holds a full table for
-- every row.
pub construct-Geometry :
    (g : Config) (grants : ℕ → Bool)
    → g.device ≡ cuda
    → g.kv_quant ≡ k_kv_quant_none
    → g.env_window ≡ false
    → valid_block_size g.block_size ≡ true
    → 0 < g.max_batch
    → 0 < g.max_seq_len
    → ((bytes : ℕ) → grants bytes ≡ true)
    → Returns (construct grants g) (Geometry g)
unfolding construct
construct-Geometry g grants on_cuda off no_window valid batch len granted =
    simp (on_cuda, off, no_window)
      (Returns-bind (LaidOut g valid batch len) (Geometry g) (layout g) _
        (layout-LaidOut g valid batch len on_cuda)
        (λ (block_size, w, n, a) (same_size, same_w, same_n, f).
          simp (all_granted-true grants _ granted) (record {
            paged = refl;
            same_block_size = same_size;
            room = rw (same_size, same_w) bounds.0;
            tight = rw (same_size, same_w) bounds.1;
            full = rw (same_w) same_n;
            pool = f.valid;
            rows = f.rows;
            blocks = f.blocks ∙ sym same_n;
            width = f.columns ∙ sym same_w;
            all_free = f.all_free ∙ sym same_n;
          })))
  where
    bounds :
        (g.max_seq_len ≤ width g valid batch len * g.block_size)
        × (width g valid batch len * g.block_size < g.max_seq_len + g.block_size)
    bounds = ceil-bounds g.max_seq_len g.block_size (block_pos g valid batch len)
