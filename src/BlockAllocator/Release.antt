-- ===== src/BlockAllocator/Release.antt =====
-- free_blocks_from and free_all: dropping the references of a row.
use llm_steady_infer.Base.{
  ◌==◌, subst, ℕ, ◌≤◌, ◌<◌, ◌≡◌, ◌≢◌, refl, ap, Bool, false, Option, none, some, [], arith,
  if◌then◌else◌, length, take, take-nil, count, count-take-le, update_ind, update, update_self,
  update-ne, lt→leb, Returns, Returns-bind, Returns-mono, inl, inr, Bool-cases, sym, ◌∙◌,
}
use llm_steady_infer.BlockAllocator.{
  BlockAllocator, Row, blocks_of, IsCompact, free_walk, free_blocks_from, free_all,
}
use llm_steady_infer.BlockAllocator.Invariant.{
  Inv, occurrences, occurrences-update, count-le-occurrences,
}
use llm_steady_infer.BlockAllocator.Walking.{WalkPost, Walked, free_walk-Walked}

-- The row keeps its first `start` blocks, and no other row changes.
pub record Freed (start row : ℕ) (a a' : BlockAllocator) : Type 0 where
  pub same_num_blocks : a'.num_blocks ≡ a.num_blocks
  pub same_num_rows : a'.num_rows ≡ a.num_rows
  pub same_width : a'.max_blocks_per_seq ≡ a.max_blocks_per_seq
  pub same_block_size : a'.block_size ≡ a.block_size
  pub same_cached : a'.cached ≡ a.cached
  pub kept : blocks_of (a'.block_tables row) ≡ take start (blocks_of (a.block_tables row))
  pub others : (r : ℕ) → r ≢ row → a'.block_tables r ≡ a.block_tables r
  pub owners : (r : ℕ) → r ≢ row → a'.row_busy r ≡ a.row_busy r
  pub vacated : blocks_of (a'.block_tables row) ≡ [] → a'.row_busy row ≡ false
  pub still_owned : 0 < length (blocks_of (a'.block_tables row)) → a'.row_busy row ≡ a.row_busy row

module _ (start row : ℕ) (a : BlockAllocator) (v : Inv a) (row_lt : row < a.num_rows) where
  module _ (es : Row) (left : Bool) (a₁ : BlockAllocator)
      (w : Walked start 0 (a.block_tables row) a es left a₁) where
    open w use {same}

    abbrev stored : BlockAllocator
    stored = record a₁ {
      block_tables = update a₁.block_tables row es;
      row_busy = if left then a₁.row_busy else update a₁.row_busy row false;
    }

    stored_tables : (r : ℕ) → stored.block_tables r ≡ update a.block_tables row es r
    stored_tables r = ap (λ t. update t row es r) same.same_tables

    kept_blocks : blocks_of es ≡ take start (blocks_of (a.block_tables row))
    kept_blocks =
        w.kept (v.compact row) ∙ ap (λ k. take k (blocks_of (a.block_tables row))) (omega arith)

    same_table : (r : ℕ) → a₁.block_tables r ≡ a.block_tables r
    same_table r = ap (λ t. t r) same.same_tables

    same_owner : (r : ℕ) → a₁.row_busy r ≡ a.row_busy r
    same_owner r = ap (λ t. t r) same.same_busy

    counted : (x : ℕ) → occurrences a₁.num_rows (update a₁.block_tables row es) x ≡ a₁.ref_counts x
    counted x = omega (
      arith,
      before,
      w.refs x,
      ap (λ t. count x (blocks_of t)) (same_table row),
      occurrences-update a₁.num_rows a₁.block_tables row es x (omega (arith, same.same_num_rows)),
    )
      where
        before : occurrences a₁.num_rows a₁.block_tables x ≡ a.ref_counts x
        before = rw (same.same_num_rows, same.same_tables) (v.counted x)

    none_mounted : (r : ℕ) → stored.row_busy r ≡ false → blocks_of (stored.block_tables r) ≡ []
    none_mounted r h = elim (Bool-cases left) [
      | inl e ↦
          update_ind (λ t. blocks_of t ≡ []) a₁.block_tables row es r
            (λ hit.
              kept_blocks ∙ ap (take start) (v.idle row (cc (hit, same_owner r))) ∙ take-nil start)
            (ground (arith, v.idle r, same_owner r, ap blocks_of (same_table r)))
      | inr e ↦ ground (arith, w.none_left e, v.idle r, same_owner r, ap blocks_of (same_table r))
    ]

    stored-Inv : Inv stored
    stored-Inv = record {
      free_once = w.state.free_once;
      counted = counted;
      in_pool = w.state.in_pool;
      once = λ r x.
          update_ind (λ t. count x (blocks_of t) ≤ 1) a₁.block_tables row es r
            (λ _. omega (
              arith,
              ap (count x) kept_blocks,
              count-take-le x start (blocks_of (a.block_tables row)),
              v.once row x,
            ))
            (rw (same_table r) (v.once r x));
      compact = λ r.
          update_ind IsCompact a₁.block_tables row es r (λ _. w.compact (v.compact row))
            (rw (same_table r) (v.compact r));
      width = λ r.
          update_ind (λ t. length t ≡ a₁.max_blocks_per_seq) a₁.block_tables row es r
            (λ _. w.same_length ∙ v.width row ∙ sym same.same_width)
            (rw (same_table r, same.same_width) (v.width r));
      idle = none_mounted;
    }

    stored-Freed : Freed start row a stored
    stored-Freed = record {
      same_num_blocks = same.same_num_blocks;
      same_num_rows = same.same_num_rows;
      same_width = same.same_width;
      same_block_size = same.same_block_size;
      same_cached = same.same_cached;
      kept = ap blocks_of (update_self a₁.block_tables row es) ∙ kept_blocks;
      others = λ r h. update-ne a₁.block_tables row es r h ∙ same_table r;
      owners = λ r h. ground (arith, same_owner r);
      vacated = λ e.
          ground
            (arith, w.some_left, ap length (ap blocks_of (update_self a₁.block_tables row es)));
      still_owned = λ e. ground (arith, w.none_left, same_owner row);
    }

  abbrev pub FreePost : BlockAllocator → Type 0
  FreePost a' = Inv a' × Freed start row a a'

  -- In a pool in order, dropping the blocks of a row from the entry `start` on never aborts and
  -- keeps the pool in order. The row keeps its first `start` blocks, no other row changes, and
  -- the row's owner goes exactly if no block is left.
  pub free_blocks_from-Freed : Returns (free_blocks_from (some row) start a) FreePost
  unfolding free_blocks_from
  free_blocks_from-Freed = rw (lt→leb row a.num_rows row_lt) (
      Returns-bind (WalkPost start 0 (a.block_tables row) a) FreePost
        (free_walk start 0 (a.block_tables row) a) _
        (free_walk-Walked start 0 (a.block_tables row) a
          (record { free_once = v.free_once; in_pool = v.in_pool })
          (λ x.
            omega
              (arith, v.counted x, count-le-occurrences a.num_rows a.block_tables row x row_lt)))
        (λ (es, left, a₁) w. (stored-Inv es left a₁ w, stored-Freed es left a₁ w)))

-- A row of the pool, or none.
abbrev pub IsSlot : BlockAllocator → Option ℕ → Type 0
IsSlot a none = Unit
IsSlot a (some row) = row < a.num_rows

-- A row that nobody owns and that mounts nothing.
pub record IsVacant (row : ℕ) (a : BlockAllocator) : Type 0 where
  pub no_owner : a.row_busy row ≡ false
  pub no_blocks : blocks_of (a.block_tables row) ≡ []

-- The row at the slot is vacant afterwards, and every other row is as before.
pub record Vacated (slot : Option ℕ) (a a' : BlockAllocator) : Type 0 where
  pub vacant : (row : ℕ) → slot ≡ some row → IsVacant row a'
  pub other_tables : (r : ℕ) → slot ≢ some r → a'.block_tables r ≡ a.block_tables r
  pub other_owners : (r : ℕ) → slot ≢ some r → a'.row_busy r ≡ a.row_busy r

pub Vacated-keeps :
    (slot : Option ℕ) (row : ℕ) (a a' : BlockAllocator)
    → Vacated slot a a'
    → IsVacant row a
    → IsVacant row a'
Vacated-keeps none row a a' v h = record {
  no_owner = v.other_owners row (λ e. cc) ∙ h.no_owner;
  no_blocks = ap blocks_of (v.other_tables row (λ e. cc)) ∙ h.no_blocks;
}
Vacated-keeps (some r) row a a' v h = elim (Bool-cases (r == row)) [
  | inl same ↦ v.vacant row (ground (arith, same))
  | inr differ ↦ record {
    no_owner = v.other_owners row (λ e. ground (arith, differ, e)) ∙ h.no_owner;
    no_blocks = ap blocks_of (v.other_tables row (λ e. ground (arith, differ, e))) ∙ h.no_blocks;
  }
]

Freed-Vacated : (row : ℕ) (a a' : BlockAllocator) → Freed 0 row a a' → Vacated (some row) a a'
Freed-Vacated row a a' f = record {
  vacant = λ r e.
      subst (λ x. IsVacant x a') (ground (arith, e))
        (record { no_owner = f.vacated f.kept; no_blocks = f.kept });
  other_tables = λ r ne. f.others r (λ e. ne (ap some (sym e)));
  other_owners = λ r ne. f.owners r (λ e. ne (ap some (sym e)));
}

-- Dropping a whole row keeps the pool in order, and its sizes, and vacates the row.
pub free_all-Inv :
    (slot : Option ℕ) (a : BlockAllocator)
    → Inv a
    → IsSlot a slot
    → Returns (free_all slot a) (λ a'. Inv a' × (a'.num_rows ≡ a.num_rows) × Vacated slot a a')
unfolding free_all free_blocks_from
free_all-Inv none a v h = (
  v,
  refl,
  record { vacant = λ row e. absurd cc; other_tables = λ r ne. refl; other_owners = λ r ne. refl },
)
free_all-Inv (some row) a v h =
    Returns-mono (FreePost 0 row a v h)
      (λ a'. Inv a' × (a'.num_rows ≡ a.num_rows) × Vacated (some row) a a')
      (free_blocks_from (some row) 0 a) (free_blocks_from-Freed 0 row a v h)
      (λ a' (valid, f). (valid, f.same_num_rows, Freed-Vacated row a a' f))
