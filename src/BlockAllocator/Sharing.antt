-- ===== src/BlockAllocator/Sharing.antt =====
-- reserve_shared_prefix, mark_cached and evict_cached: the prefix cache's side of the pool.
use llm_steady_infer.Base.{
  ℕ, ◌+◌, ◌≤◌, ◌<◌, ◌≡◌, ◌≢◌, refl, ap, Bool, true, false, ◌||◌, some, List, [], ◌∷◌, ◌++◌, arith,
  ltb, leb, ◌==◌, length, take, count, update, update_self, All, lt→leb, le→ltb, update-ne,
  update_ind, count-append, map, Returns, inl, inr, Bool-cases, lt→ltb, eq→==, sym, ◌∙◌,
}
use llm_steady_infer.BlockAllocator.{
  BlockAllocator, Row, blocks_of, IsCompact, mark_cached, evict_cached, reserve_shared_prefix,
  mountable, is_empty, mentions, add_refs, num_used_blocks, used_entries-length, mount_front,
  take-used, blocks_of-mount_front, mount_front-IsCompact, length-mount_front,
}
use llm_steady_infer.BlockAllocator.Invariant.{Inv, is_free, occurrences-update}
use llm_steady_infer.BlockAllocator.Reclaim.{Reclaimed, Reclaimed-refl}

-- A referenced block may be pinned.
pub mark_cached-Inv :
    (b : ℕ) (a : BlockAllocator)
    → Inv a
    → 0 < a.ref_counts b
    → Returns (mark_cached b a) (λ a'. Inv a' × (a' ≡ record a { cached = update a.cached b true }))
unfolding mark_cached
mark_cached-Inv b a v h =
    rw (lt→ltb b a.num_blocks (ground (arith, v.in_pool b)), lt→ltb 0 (a.ref_counts b) h)
      (
        record {
          free_once = λ x. ground (arith, v.free_once x, h);
          counted = v.counted;
          in_pool = v.in_pool;
          once = v.once;
          compact = v.compact;
          width = v.width;
          idle = v.idle;
        },
        refl,
      )

-- What an eviction leaves: the pin goes, and the block is free.
abbrev unpinned : BlockAllocator → ℕ → BlockAllocator
unpinned a b = record a { cached = update a.cached b false; free_blocks = b ∷ a.free_blocks }

unpinned-Inv :
    (b : ℕ) (a : BlockAllocator)
    → Inv a
    → b < a.num_blocks
    → a.ref_counts b ≡ 0
    → a.cached b ≡ true
    → Inv (unpinned a b)
unpinned-Inv b a v lt zero_refs pinned = record {
  free_once = λ x. ground (arith, v.free_once x);
  counted = v.counted;
  in_pool = v.in_pool;
  once = v.once;
  compact = v.compact;
  width = v.width;
  idle = v.idle;
}

-- In a pool in order, evicting a block without references does not abort, keeps the pool in
-- order, changes no table and no count, and leaves the block unpinned.
pub evict_cached-Inv :
    (b : ℕ) (a : BlockAllocator)
    → Inv a
    → b < a.num_blocks
    → a.ref_counts b ≡ 0
    → Returns (evict_cached b a) (λ a'. Inv a' × Reclaimed a a' × (a'.cached b ≡ false))
unfolding evict_cached
evict_cached-Inv b a v lt zero_refs =
    rw (lt→ltb b a.num_blocks lt, eq→== (a.ref_counts b) 0 zero_refs)
      (elim (Bool-cases (a.cached b)) [
        | inl e ↦ rw e (
          unpinned-Inv b a v lt zero_refs e,
          (record {
            same_num_blocks = refl;
            same_num_rows = refl;
            same_width = refl;
            same_block_size = refl;
            same_tables = refl;
            same_refs = refl;
            same_busy = refl;
            more_free = omega arith;
            less_cached = λ x h. ground arith;
          }),
          ground arith,
        )
        | inr e ↦ rw e (v, Reclaimed-refl a, e)
      ])

add_refs-count : (bs : List ℕ) (refs : ℕ → ℕ) (x : ℕ) → add_refs bs refs x ≡ refs x + count x bs
unfolding add_refs
add_refs-count [] refs x = omega arith
add_refs-count (b ∷ bs) refs x = ground (arith, add_refs-count bs (update refs b (refs b + 1)) x)

not-mentions : (b : ℕ) (bs : List ℕ) → mentions b (map some bs) ≡ false → count b bs ≡ 0
unfolding mentions
not-mentions b [] h = refl
not-mentions b (x ∷ bs) h = ground (arith, not-mentions b bs)

-- What the validation establishes of each block.
record IsMountable (a : BlockAllocator) (held : Row) (b : ℕ) : Type 0 where
  in_range : b < a.num_blocks
  not_free : is_free a b ≡ false
  not_held : mentions b held ≡ false

mountable-IsMountable :
    (a : BlockAllocator) (held : Row) (bs : List ℕ) (b : ℕ)
    → mountable a held bs ≡ true
    → 0 < count b bs
    → IsMountable a held b
unfolding mountable
mountable-IsMountable a held [] b h m = absurd (omega arith)
mountable-IsMountable a held (x ∷ bs) b h m = elim (Bool-cases (x == b)) [
  | inl e ↦ record { in_range = ground arith; not_free = ground arith; not_held = ground arith }
  | inr e ↦ mountable-IsMountable a held bs b (ground arith) (ground arith)
]

-- The row gains the blocks in front, each with one reference, and nothing else changes.
pub record Mounted (row : ℕ) (blocks : List ℕ) (a a' : BlockAllocator) : Type 0 where
  pub same_num_blocks : a'.num_blocks ≡ a.num_blocks
  pub same_num_rows : a'.num_rows ≡ a.num_rows
  pub same_width : a'.max_blocks_per_seq ≡ a.max_blocks_per_seq
  pub same_block_size : a'.block_size ≡ a.block_size
  pub same_free : a'.free_blocks ≡ a.free_blocks
  pub same_cached : a'.cached ≡ a.cached
  pub same_busy : a'.row_busy ≡ a.row_busy
  pub in_front : blocks_of (a'.block_tables row) ≡ blocks ++ blocks_of (a.block_tables row)
  pub others : (r : ℕ) → r ≢ row → a'.block_tables r ≡ a.block_tables r
  pub refs : (x : ℕ) → a'.ref_counts x ≡ a.ref_counts x + count x blocks

-- What reserve_shared_prefix answers.
pub data Reserved (row : ℕ) (blocks : List ℕ) (a a' : BlockAllocator) (r : Bool) : Type 0 where
  refused : r ≡ false → a' ≡ a → Reserved row blocks a a' r
  reserved : r ≡ true → Mounted row blocks a a' → Reserved row blocks a a' r

module _ (row : ℕ) (blocks : List ℕ) (a : BlockAllocator) (v : Inv a) (row_lt : row < a.num_rows)
    (owned : a.row_busy row ≡ true) (distinct : (x : ℕ) → count x blocks ≤ 1) where
  abbrev table : Row
  table = a.block_tables row

  abbrev used : ℕ
  used = length (blocks_of table)

  abbrev mounted : BlockAllocator
  mounted = record a {
    block_tables = update a.block_tables row (mount_front blocks used table);
    ref_counts = add_refs blocks a.ref_counts;
  }

  module _ (fits : used + length blocks ≤ a.max_blocks_per_seq)
      (valid : mountable a (take used table) blocks ≡ true) where
    IsMountable-one : (x : ℕ) → 0 < count x blocks → IsMountable a (take used table) x
    IsMountable-one x h = mountable-IsMountable a (take used table) blocks x valid h

    apart : (x : ℕ) → 0 < count x blocks → count x (blocks_of table) ≡ 0
    apart x h =
        not-mentions x (blocks_of table)
          (ap (mentions x) (sym (take-used table (v.compact row))) ∙ (IsMountable-one x h).not_held)

    count-front :
        (x : ℕ)
        → count x (blocks_of (mount_front blocks used table))
          ≡ count x blocks + count x (blocks_of table)
    count-front x =
        ap (count x) (blocks_of-mount_front blocks table (v.compact row))
        ∙ count-append x blocks (blocks_of table)

    mounted-Inv : Inv mounted
    mounted-Inv = record {
      free_once = λ x.
          ground (arith, v.free_once x, add_refs-count blocks a.ref_counts x, IsMountable-one x);
      counted = λ x. omega (
        arith,
        v.counted x,
        count-front x,
        add_refs-count blocks a.ref_counts x,
        occurrences-update a.num_rows a.block_tables row (mount_front blocks used table) x row_lt,
      );
      in_pool = λ x h.
          ground (arith, v.in_pool x h, add_refs-count blocks a.ref_counts x, IsMountable-one x);
      once = λ r x.
          update_ind (λ t. count x (blocks_of t) ≤ 1) a.block_tables row
            (mount_front blocks used table) r
            (λ _. ground (arith, count-front x, distinct x, v.once row x, apart x)) (v.once r x);
      compact = λ r.
          update_ind IsCompact a.block_tables row (mount_front blocks used table) r
            (λ _. mount_front-IsCompact blocks table (v.compact row)) (v.compact r);
      width = λ r.
          update_ind (λ t. length t ≡ a.max_blocks_per_seq) a.block_tables row
            (mount_front blocks used table) r
            (λ _. length-mount_front blocks table used (omega (arith, v.width row)) ∙ v.width row)
            (v.width r);
      idle = λ r h. ground (arith, v.idle r h, owned);
    }

    mounted-Mounted : Mounted row blocks a mounted
    mounted-Mounted = record {
      same_num_blocks = refl;
      same_num_rows = refl;
      same_width = refl;
      same_block_size = refl;
      same_free = refl;
      same_cached = refl;
      same_busy = refl;
      in_front =
          ap blocks_of (update_self a.block_tables row (mount_front blocks used table))
          ∙ blocks_of-mount_front blocks table (v.compact row);
      others = λ r h. update-ne a.block_tables row (mount_front blocks used table) r h;
      refs = add_refs-count blocks a.ref_counts;
    }

  used-entries : num_used_blocks a (some row) ≡ used
  used-entries = ground (arith, used_entries-length table)

  abbrev ReservePost : BlockAllocator × Bool → Type 0
  ReservePost (a', r) = Inv a' × Reserved row blocks a a' r

  reserve_shared_prefix-ReservePost : ReservePost (reserve_shared_prefix (some row) blocks a)
  unfolding reserve_shared_prefix
  reserve_shared_prefix-ReservePost =
      rw used-entries (elim (Bool-cases (leb a.num_rows row || is_empty blocks)) [
        | inl e ↦ rw e (v, refused refl refl)
        | inr e ↦ rw e (elim (Bool-cases (ltb a.max_blocks_per_seq (used + length blocks))) [
          | inl f ↦ rw f (v, refused refl refl)
          | inr f ↦ rw f (elim (Bool-cases (mountable a (take used table) blocks)) [
            | inl g ↦
                rw g
                  (mounted-Inv (ground arith) g, reserved refl (mounted-Mounted (ground arith) g))
            | inr g ↦ rw g (v, refused refl refl)
          ])
        ])
      ])

  -- In a pool in order, mounting distinct blocks on an owned row keeps the pool in order. It
  -- either puts all of them in front of the row's own, one reference each, or changes nothing.
  pub reserve_shared_prefix-Mounted :
      let result = reserve_shared_prefix (some row) blocks a in
      Inv result.0 × Reserved row blocks a result.0 result.1
  reserve_shared_prefix-Mounted = reserve_shared_prefix-ReservePost

-- A row that mounts nothing accepts any blocks that are cached or referenced, if they fit.
mountable-All :
    (a : BlockAllocator) (bs : List ℕ)
    → All (λ b. (b < a.num_blocks) × (is_free a b ≡ false)) bs
    → mountable a [] bs ≡ true
unfolding mountable mentions
mountable-All a [] h = refl
mountable-All a (b ∷ bs) h = ground (arith, h.0, mountable-All a bs h.1)

pub reserve_shared_prefix-accepts :
    (row b : ℕ) (bs : List ℕ) (a : BlockAllocator)
    → row < a.num_rows
    → blocks_of (a.block_tables row) ≡ []
    → length (b ∷ bs) ≤ a.max_blocks_per_seq
    → All (λ x. (x < a.num_blocks) × (is_free a x ≡ false)) (b ∷ bs)
    → (reserve_shared_prefix (some row) (b ∷ bs) a).1 ≡ true
unfolding reserve_shared_prefix
reserve_shared_prefix-accepts row b bs a row_lt empty fits ok =
    rw
      (
        lt→leb row a.num_rows row_lt,
        no_entries,
        le→ltb a.max_blocks_per_seq (0 + length (b ∷ bs)) (omega arith),
        mountable-All a (b ∷ bs) ok,
      )
      refl
  where
    no_entries : num_used_blocks a (some row) ≡ 0
    no_entries = ground (arith, used_entries-length (a.block_tables row), ap (length {A = ℕ}) empty)
