-- ===== src/Scheduler/Execution/RowOrder.antt =====
-- The order of the staged rows, and what stands at each place of the arrays.
use mathlib.Core.List.{Perm, perm_middle}
use mathlib.Core.List.Perm
use mathlib.Core.Option.{some-injective}
use llm_steady_infer.Base.{
  ℕ, zero, suc, ◌+◌, ◌/◌, ◌≤◌, ◌<◌, ◌≡◌, refl, ap, ◌∙◌, subst, inl, inr, Bool, true, false,
  Bool-cases, some, List, [], ◌∷◌, ◌++◌, length, length-append, take, map, get_elem?, All, All-mono,
  ltb, if◌then◌else◌, arith,
}
use llm_steady_infer.KvManager.{quantized}
use llm_steady_infer.Sequence.{Sequence}
use llm_steady_infer.Scheduler.State.{Scheduler, row_cap_for}
use llm_steady_infer.Scheduler.Preemption.{pool_of}
use llm_steady_infer.Scheduler.Batch.{BatchRow}
use llm_steady_infer.Scheduler.Execution.{
  Staged, decode_part, prefill_part, ordered, live_cols, row_starts,
}

-- The row belongs to a running sequence with a row of the pool, whose table reaches its position.
pub record RowReady (s : Scheduler) (r : BatchRow) : Type 0 where
  pub sequence : Sequence
  pub row : ℕ
  pub runs : get_elem? s.running_sequences r.seq ≡ some sequence
  pub mounted : sequence.kv_slot_id ≡ some row
  pub in_pool : row < (pool_of s).num_rows
  pub reaches : r.position / s.block_size < s.kv_manager.max_blocks_per_seq

-- A batch that fits into the staging arrays, in the paged layout.
pub record StageReady (rows : List BatchRow) (s : Scheduler) : Type 0 where
  pub paged : s.kv_manager.paged ≡ true
  pub capped : length rows ≤ row_cap_for s.max_batch_size
  pub same_width : (pool_of s).max_blocks_per_seq ≡ s.kv_manager.max_blocks_per_seq
  pub some_rows : 0 < length rows
  pub each : All (RowReady s) rows

-- What stands at the place `k` of the arrays for the row `r`.
pub record RowStaged (s : Scheduler) (st : Staged) (k : ℕ) (r : BatchRow) : Type 0 where
  pub sequence : Sequence
  pub row : ℕ
  pub runs : get_elem? s.running_sequences r.seq ≡ some sequence
  pub mounted : sequence.kv_slot_id ≡ some row
  pub token : get_elem? st.input_ids k ≡ some r.token_id
  pub position : get_elem? st.positions k ≡ some r.position
  pub table : get_elem? st.block_table k ≡ some (take st.table_cols ((pool_of s).block_tables row))
  pub covered : r.position / s.block_size < st.table_cols
  pub slot : quantized s.kv_manager ≡ true → get_elem? st.kv_slots k ≡ some (some row)
  pub kind : r.is_decode ≡ ltb k st.num_decode_rows

-- The staged arrays hold the rows of the batch in the order `in_order`.
pub record IsStaged (rows : List BatchRow) (s : Scheduler) (st : Staged) : Type 0 where
  pub in_order : List BatchRow
  pub permuted : Perm in_order rows
  pub decode_rows : take st.num_decode_rows in_order ≡ decode_part rows
  pub row_map : st.seq_row_start ≡ row_starts st.num_decode_rows (prefill_part rows)
  pub each : (k : ℕ) (r : BatchRow) → get_elem? in_order k ≡ some r → RowStaged s st k r

order_cons :
    (r : BatchRow) (ds ps rs : List BatchRow) (b : Bool)
    → Perm (ds ++ ps) rs
    → Perm ((if b then r ∷ ds else ds) ++ (if b then ps else r ∷ ps)) (r ∷ rs)
order_cons r ds ps rs true p = Perm.cons r p
order_cons r ds ps rs false p = Perm.trans (perm_middle ds ps) (Perm.cons r p)

pub ordered-Perm : (rows : List BatchRow) → Perm (ordered rows) rows
ordered-Perm [] = Perm.nil
ordered-Perm (r ∷ rs) =
    order_cons r (decode_part rs) (prefill_part rs) rs r.is_decode (ordered-Perm rs)

pub ordered-length : (rows : List BatchRow) → length (ordered rows) ≡ length rows
ordered-length rows = length-append (decode_part rows) (prefill_part rows) ∙ parts rows
  where
    parts : (rs : List BatchRow) → length (decode_part rs) + length (prefill_part rs) ≡ length rs
    parts [] = refl
    parts (r ∷ rs) = ground (arith, parts rs)

pub take-append : (xs ys : List BatchRow) → take (length xs) (xs ++ ys) ≡ xs
take-append [] ys = refl
take-append (x ∷ xs) ys = ap (◌∷◌ x) (take-append xs ys)

module _ (P : BatchRow → Type 0) (r : BatchRow) (xs : List BatchRow) (here : P r)
    (h : All P xs) where
  taken_if : (b : Bool) → All P (if b then r ∷ xs else xs)
  taken_if true = (here, h)
  taken_if false = h

  taken_unless : (b : Bool) → All P (if b then xs else r ∷ xs)
  taken_unless true = h
  taken_unless false = (here, h)

pub decode_part-All :
    (P : BatchRow → Type 0) (rs : List BatchRow) → All P rs → All P (decode_part rs)
decode_part-All P [] h = tt
decode_part-All P (r ∷ rs) h =
    taken_if P r (decode_part rs) h.0 (decode_part-All P rs h.1) r.is_decode

pub prefill_part-All :
    (P : BatchRow → Type 0) (rs : List BatchRow) → All P rs → All P (prefill_part rs)
prefill_part-All P [] h = tt
prefill_part-All P (r ∷ rs) h =
    taken_unless P r (prefill_part rs) h.0 (prefill_part-All P rs h.1) r.is_decode

-- Each row of the order decodes exactly if it stands among the first ones.
pub only_decode : (rs : List BatchRow) → All (λ r. r.is_decode ≡ true) (decode_part rs)
only_decode [] = tt
only_decode (r ∷ rs) = elim (Bool-cases r.is_decode) [
  | inl e ↦ rw e (refl, only_decode rs)
  | inr e ↦ rw e (only_decode rs)
]

pub only_prefill : (rs : List BatchRow) → All (λ r. r.is_decode ≡ false) (prefill_part rs)
only_prefill [] = tt
only_prefill (r ∷ rs) = elim (Bool-cases r.is_decode) [
  | inl e ↦ rw e (only_prefill rs)
  | inr e ↦ rw e (refl, only_prefill rs)
]

pub All-get :
    (P : BatchRow → Type 0) (xs : List BatchRow) (k : ℕ) (r : BatchRow)
    → All P xs
    → get_elem? xs k ≡ some r
    → P r
All-get P [] k r h at = absurd (ground (arith, at))
All-get P (x ∷ xs) zero r h at = subst P (some-injective x r at) h.0
All-get P (x ∷ xs) (suc k) r h at = All-get P xs k r h.1 at

pub kinds :
    (ds ps : List BatchRow)
    → All (λ r. r.is_decode ≡ true) ds
    → All (λ r. r.is_decode ≡ false) ps
    → (k : ℕ) (r : BatchRow) → get_elem? (ds ++ ps) k ≡ some r
    → r.is_decode ≡ ltb k (length ds)
kinds [] ps hd hp k r at = All-get (λ x. x.is_decode ≡ false) ps k r hp at ∙ ground arith
kinds (d ∷ ds) ps hd hp zero r at =
    subst (λ x. x.is_decode ≡ true) (some-injective d r at) hd.0 ∙ ground arith
kinds (d ∷ ds) ps hd hp (suc k) r at = kinds ds ps hd.1 hp k r at ∙ ground arith

pub get-map :
    (f : BatchRow → ℕ) (xs : List BatchRow) (k : ℕ) (r : BatchRow)
    → get_elem? xs k ≡ some r
    → get_elem? (map f xs) k ≡ some (f r)
get-map f [] k r at = absurd (ground (arith, at))
get-map f (x ∷ xs) zero r at = ap (λ y. some (f y)) (some-injective x r at)
get-map f (x ∷ xs) (suc k) r at = get-map f xs k r at

-- The columns that the batch needs: enough for every row, and no more than a table has.
pub live_cols-enough :
    (block_size stride : ℕ) (rs : List BatchRow)
    → All (λ r. r.position / block_size < stride) rs
    → (All (λ r. r.position / block_size < live_cols block_size stride rs) rs)
      × (live_cols block_size stride rs ≤ stride)
unfolding live_cols
live_cols-enough block_size stride [] h = (tt, omega arith)
live_cols-enough block_size stride (r ∷ rs) h =
    let (rest, bound) = live_cols-enough block_size stride rs h.1 in
    (
      (
        ground (arith, h.0),
        All-mono _ (λ x. x.position / block_size < live_cols block_size stride (r ∷ rs)) rs
            (λ x le. ground (arith, le)) rest,
      ),
      ground (arith, h.0, bound),
    )
