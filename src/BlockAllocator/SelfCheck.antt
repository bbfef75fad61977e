-- ===== src/BlockAllocator/SelfCheck.antt =====
-- invariant_holds and the constructor.
use llm_steady_infer.Base.{
  ℕ, zero, suc, ◌+◌, ◌≤◌, ◌<◌, ◌≡◌, refl, ap, Bool, true, false, not, ◌&&◌, ◌||◌, Option, none,
  some, List, [], ◌∷◌, arith, ltb, leb, ◌==◌, if◌then◌else◌, length, count, update, Returns,
  Returns-bind, Returns-mono, lt→ltb, replicate, length-replicate,
}
use llm_steady_infer.BlockAllocator.{
  BlockAllocator, Row, blocks_of, IsCompact-of_empty, blocks_of-replicate, create, range_from,
  scan_free, scan_row, scan_rows, scan_blocks, stamped_by, invariant_holds,
}
use llm_steady_infer.BlockAllocator.Invariant.{Inv, occurrences, count-le-occurrences}

-- The free list passes if it names blocks of the pool, each once.
abbrev FreeSeen : List ℕ → (ℕ → Bool) → (ℕ → Bool) → Type 0
FreeSeen bs seen seen' = (x : ℕ) → seen' x ≡ (seen x || not (count x bs == 0))

scan_free-FreeSeen :
    (num_blocks : ℕ) (bs : List ℕ) (seen : ℕ → Bool)
    → ((x : ℕ) → 0 < count x bs → (x < num_blocks) × (seen x ≡ false))
    → ((x : ℕ) → count x bs ≤ 1)
    → Returns (scan_free num_blocks bs seen) (FreeSeen bs seen)
unfolding scan_free
scan_free-FreeSeen num_blocks [] seen h once = λ x. ground arith
scan_free-FreeSeen num_blocks (b ∷ bs) seen h once = rw passes (
    Returns-mono (FreeSeen bs (update seen b true)) (FreeSeen (b ∷ bs) seen)
      (scan_free num_blocks bs (update seen b true))
      (scan_free-FreeSeen num_blocks bs (update seen b true) (λ x m. ground (arith, h x, once x))
        (λ x. ground (arith, once x)))
      (λ seen' r x. ground (arith, r x)))
  where
    passes : (ltb b num_blocks && not (seen b)) ≡ true
    passes = ground (arith, h b)

abbrev stamp_lt : ℕ → Option ℕ → Bool
stamp_lt row none = true
stamp_lt row (some r) = ltb r row

-- A row passes if it names blocks of the pool, each once; stamps of later rows stay unused.
record RowSeen (row : ℕ) (es : Row) (s s' : (ℕ → Option ℕ) × (ℕ → ℕ)) : Type 0 where
  stamps : (x : ℕ) → stamp_lt (row + 1) (s'.0 x) ≡ true
  counts : (x : ℕ) → s'.1 x ≡ s.1 x + count x (blocks_of es)

RowSeen-cons :
    (row b : ℕ) (es : Row) (stamp : ℕ → Option ℕ) (occ : ℕ → ℕ) (s' : (ℕ → Option ℕ) × (ℕ → ℕ))
    → RowSeen row es (update stamp b (some row), update occ b (occ b + 1)) s'
    → RowSeen row (some b ∷ es) (stamp, occ) s'
RowSeen-cons row b es stamp occ s' r = record {
  stamps = r.stamps;
  counts = λ x. ground (arith, r.counts x);
}

scan_row-RowSeen :
    (num_blocks row : ℕ) (es : Row) (s : (ℕ → Option ℕ) × (ℕ → ℕ))
    → ((x : ℕ) → stamp_lt (row + 1) (s.0 x) ≡ true)
    → ((x : ℕ) → 0 < count x (blocks_of es) → (x < num_blocks) × (stamped_by row (s.0 x) ≡ false))
    → ((x : ℕ) → count x (blocks_of es) ≤ 1)
    → Returns (scan_row num_blocks row es s) (RowSeen row es s)
unfolding scan_row
scan_row-RowSeen num_blocks row [] s l h once = record { stamps = l; counts = λ x. omega arith }
scan_row-RowSeen num_blocks row (none ∷ es) s l h once =
    Returns-mono (RowSeen row es s) (RowSeen row (none ∷ es) s) (scan_row num_blocks row es s)
      (scan_row-RowSeen num_blocks row es s l h once)
      (λ s' r. record { stamps = r.stamps; counts = r.counts })
scan_row-RowSeen num_blocks row (some b ∷ es) (stamp, occ) l h once =
    let stamp' = update stamp b (some row) in
    let occ' = update occ b (occ b + 1) in
    rw (in_range, fresh)
      (Returns-mono (RowSeen row es (stamp', occ')) (RowSeen row (some b ∷ es) (stamp, occ))
        (scan_row num_blocks row es (stamp', occ'))
        (scan_row-RowSeen num_blocks row es (stamp', occ') (λ x. ground (arith, l x))
          (λ x m. ground (arith, h x, once x)) (λ x. ground (arith, once x)))
        (λ s' r. RowSeen-cons row b es stamp occ s' r))
  where
    in_range : ltb b num_blocks ≡ true
    in_range = ground (arith, h b)

    fresh : stamped_by row (stamp b) ≡ false
    fresh = ground (arith, h b)

-- The rows row .. row + n - 1 have been counted.
abbrev counted_from : ℕ → ℕ → (ℕ → Row) → ℕ → ℕ
counted_from zero row t x = 0
counted_from (suc n) row t x = count x (blocks_of (t row)) + counted_from n (row + 1) t x

abbrev RowsSeen : ℕ → ℕ → (ℕ → Row) → (ℕ → Option ℕ) × (ℕ → ℕ) → (ℕ → Option ℕ) × (ℕ → ℕ) → Type 0
RowsSeen n row t s s' = (x : ℕ) → s'.1 x ≡ s.1 x + counted_from n row t x

scan_rows-RowsSeen :
    (n num_blocks row : ℕ) (t : ℕ → Row) (s : (ℕ → Option ℕ) × (ℕ → ℕ))
    → ((x : ℕ) → stamp_lt row (s.0 x) ≡ true)
    → ((r x : ℕ) → 0 < count x (blocks_of (t r)) → row ≤ r → r < row + n → x < num_blocks)
    → ((r x : ℕ) → count x (blocks_of (t r)) ≤ 1)
    → Returns (scan_rows n num_blocks row t s) (RowsSeen n row t s)
unfolding scan_rows
scan_rows-RowsSeen zero num_blocks row t s l h once = λ x. omega arith
scan_rows-RowsSeen (suc n) num_blocks row t s l h once =
    Returns-bind (RowSeen row (t row) s) (RowsSeen (suc n) row t s)
      (scan_row num_blocks row (t row) s) _
      (scan_row-RowSeen num_blocks row (t row) s (λ x. ground (arith, l x))
        (λ x m. (h row x m (omega arith) (omega arith), ground (arith, l x))) (once row))
      (λ s' r.
        Returns-mono (RowsSeen n (row + 1) t s') (RowsSeen (suc n) row t s)
          (scan_rows n num_blocks (row + 1) t s')
          (scan_rows-RowsSeen n num_blocks (row + 1) t s' r.stamps
            (λ q x m lo hi. h q x m (omega arith) (omega arith)) once)
          (λ s'' q x. omega (arith, q x, r.counts x)))

occurrences-counted_from :
    (n row end : ℕ) (t : ℕ → Row) (x : ℕ)
    → end ≡ row + n
    → occurrences end t x ≡ occurrences row t x + counted_from n row t x
occurrences-counted_from zero row end t x e =
    omega (arith, ap (λ k. occurrences k t x) (let e' : end ≡ row = omega arith in e'))
occurrences-counted_from (suc n) row end t x e = omega (
  arith,
  occurrences-counted_from n (row + 1) end t x (omega arith),
  ap (λ k. occurrences k t x) (let e' : row + 1 ≡ suc row = omega arith in e'),
)

scan_blocks-true :
    (n b : ℕ) (a : BlockAllocator) (seen : ℕ → Bool) (occ : ℕ → ℕ)
    → Inv a
    → ((x : ℕ) → seen x ≡ not (count x a.free_blocks == 0))
    → ((x : ℕ) → occ x ≡ a.ref_counts x)
    → b + n ≤ a.num_blocks
    → scan_blocks n b a seen occ ≡ true
unfolding scan_blocks
scan_blocks-true zero b a seen occ v f r h = refl
scan_blocks-true (suc n) b a seen occ v f r h =
    ground (arith, scan_blocks-true n (b + 1) a seen occ v f r, f b, r b, v.free_once b)

-- A pool in order passes the destructor's audit.
pub invariant_holds-true : (a : BlockAllocator) → Inv a → invariant_holds a ≡ true
unfolding invariant_holds
invariant_holds-true a v =
    audit (scan_free a.num_blocks a.free_blocks (λ _. false)) refl
      (scan_free-FreeSeen a.num_blocks a.free_blocks (λ _. false)
        (λ x m. ground (arith, v.free_once x)) (λ x. ground (arith, v.free_once x)))
      (scan_rows a.num_rows a.num_blocks 0 a.block_tables ((λ _. none), (λ _. 0))) refl
      (scan_rows-RowsSeen a.num_rows a.num_blocks 0 a.block_tables ((λ _. none), (λ _. 0))
        (λ x. refl)
        (λ r x m lo hi.
          ground
            (arith, v.in_pool x, v.counted x, count-le-occurrences a.num_rows a.block_tables r x))
        v.once)
  where
    audit :
        (m : Option (ℕ → Bool))
        → scan_free a.num_blocks a.free_blocks (λ _. false) ≡ m
        → Returns m (FreeSeen a.free_blocks (λ _. false))
        → (m' : Option ((ℕ → Option ℕ) × (ℕ → ℕ)))
        → scan_rows a.num_rows a.num_blocks 0 a.block_tables ((λ _. none), (λ _. 0)) ≡ m'
        → Returns m' (RowsSeen a.num_rows 0 a.block_tables ((λ _. none), (λ _. 0)))
        → invariant_holds a ≡ true
    audit none e p m' e' q = absurd p
    audit (some seen) e p none e' q = absurd q
    audit (some seen) e p (some (stamp, occ)) e' q =
        rw (e, invariant_holds, e')
          (scan_blocks-true a.num_blocks 0 a seen occ v p
            (λ x. omega (
              arith,
              q x,
              v.counted x,
              occurrences-counted_from a.num_rows 0 a.num_rows a.block_tables x (omega arith),
            ))
            (omega arith))

count-range_from :
    (n i x : ℕ) → count x (range_from i n) ≡ (if leb i x && ltb x (i + n) then 1 else 0)
count-range_from zero i x = ground arith
count-range_from (suc n) i x = ground (arith, count-range_from n (i + 1) x)

occurrences-empty :
    (n : ℕ) (t : ℕ → Row) (x : ℕ) → ((r : ℕ) → blocks_of (t r) ≡ []) → occurrences n t x ≡ 0
occurrences-empty zero t x h = refl
occurrences-empty (suc n) t x h = omega (arith, ap (count x) (h n), occurrences-empty n t x h)

length-range_from : (n i : ℕ) → length (range_from i n) ≡ n
length-range_from zero i = refl
length-range_from (suc n) i = ap suc (length-range_from n (i + 1))

-- A new pool: the sizes are the arguments, every block is free and no row is owned.
pub record Fresh (num_blocks num_rows width block_size : ℕ) (a : BlockAllocator) : Type 0 where
  pub valid : Inv a
  pub blocks : a.num_blocks ≡ num_blocks
  pub rows : a.num_rows ≡ num_rows
  pub columns : a.max_blocks_per_seq ≡ width
  pub tokens : a.block_size ≡ block_size
  pub all_free : length a.free_blocks ≡ num_blocks
  pub idle : (row : ℕ) → a.row_busy row ≡ false

-- The constructor accepts positive sizes, and its pool is in order: every block free, every row idle.
pub create-Fresh :
    (num_blocks num_rows width block_size : ℕ)
    → 0 < num_blocks
    → 0 < block_size
    → Returns
        (create num_blocks num_rows width block_size)
        (Fresh num_blocks num_rows width block_size)
unfolding create
create-Fresh num_blocks num_rows width block_size h k =
    rw (lt→ltb 0 block_size k, lt→ltb 0 num_blocks h)
      (record {
        valid = record {
          free_once = λ x. ground (arith, count-range_from num_blocks 0 x);
          counted = λ x.
              occurrences-empty num_rows (λ _. replicate width none) x
                (λ r. blocks_of-replicate width);
          in_pool = λ x e. refl;
          once = λ r x. omega (arith, ap (count x) (blocks_of-replicate width));
          compact = λ r. IsCompact-of_empty (replicate width none) (blocks_of-replicate width);
          width = λ r. length-replicate width none;
          idle = λ r e. blocks_of-replicate width;
        };
        blocks = refl;
        rows = refl;
        columns = refl;
        tokens = refl;
        all_free = length-range_from num_blocks 0;
        idle = λ r. refl;
      })
