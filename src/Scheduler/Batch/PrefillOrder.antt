-- ===== src/Scheduler/Batch/PrefillOrder.antt =====
-- The order in which pending prefills are served.
use llm_steady_infer.Base.{
  ℕ, ◌≡◌, refl, inl, inr, true, false, Bool-cases, List, [], ◌∷◌, ◌++◌, if◌then◌else◌, arith,
}
use llm_steady_infer.Sequence.{Sequence}
use llm_steady_infer.Scheduler.State.{Scheduler}
use llm_steady_infer.Scheduler.Batch.{
  insert_stable, stable_sort, pending_prefills, is_short, short_first, prefill_order,
}

-- The indices whose sequences fit into one chunk, and the others.
abbrev pub shorts : List Sequence → List ℕ → List ℕ
shorts qs [] = []
shorts qs (i ∷ is) = if is_short qs i then i ∷ shorts qs is else shorts qs is

abbrev pub longs : List Sequence → List ℕ → List ℕ
longs qs [] = []
longs qs (i ∷ is) = if is_short qs i then longs qs is else i ∷ longs qs is

insert_short :
    (qs : List Sequence) (i : ℕ) (is : List ℕ)
    → is_short qs i ≡ true
    → insert_stable (short_first qs) i is ≡ i ∷ is
insert_short qs i [] h = refl
insert_short qs i (j ∷ is) h = ground (arith, h)

insert_long :
    (qs : List Sequence) (i : ℕ) (is js : List ℕ)
    → is_short qs i ≡ false
    → insert_stable (short_first qs) i (shorts qs is ++ longs qs js)
      ≡ shorts qs is ++ i ∷ longs qs js
insert_long qs i [] [] h = refl
insert_long qs i [] (j ∷ js) h = ground (arith, h, insert_long qs i [] js h)
insert_long qs i (j ∷ is) js h = ground (arith, h, insert_long qs i is js h)

stable_sort-partition :
    (qs : List Sequence) (is : List ℕ)
    → stable_sort (short_first qs) is ≡ shorts qs is ++ longs qs is
stable_sort-partition qs [] = refl
stable_sort-partition qs (i ∷ is) = elim (Bool-cases (is_short qs i)) [
  | inl e ↦ rw (e, stable_sort-partition qs is) (insert_short qs i (shorts qs is ++ longs qs is) e)
  | inr e ↦ rw (e, stable_sort-partition qs is) (insert_long qs i is is e)
]

-- The pending prompts that fit into one chunk are served first, then the others, each group in the
-- order of the running set.
pub prefill_order-partition :
    (s : Scheduler)
    → let pending = pending_prefills 0 s.running_sequences in
      prefill_order s ≡ shorts s.running_sequences pending ++ longs s.running_sequences pending
unfolding prefill_order
prefill_order-partition s =
    stable_sort-partition s.running_sequences (pending_prefills 0 s.running_sequences)
