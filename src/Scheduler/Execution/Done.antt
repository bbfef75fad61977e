-- ===== src/Scheduler/Execution/Done.antt =====
-- Which sequences update_sequences retires.
use llm_steady_infer.Base.{
  ℕ, ◌+◌, ◌≤◌, ◌≡◌, ◌≢◌, refl, sym, ap, ◌∙◌, ◌⊎◌, inl, inr, true, false, not, ◌&&◌, ◌||◌, ◌==◌, leb,
  Bool-cases, some, List, [], ◌∷◌, ◌++◌, length, length-append, All, arith,
}
use llm_steady_infer.BlockAllocator.{BlockAllocator}
use llm_steady_infer.BlockAllocator.Release.{IsVacant}
use llm_steady_infer.Sequence.{Sequence}
use llm_steady_infer.Scheduler.State.{Scheduler}
use llm_steady_infer.Scheduler.Preemption.{pool_of}
use llm_steady_infer.Scheduler.Batch.{back}
use llm_steady_infer.Scheduler.Execution.{Model, retires}
use llm_steady_infer.Scheduler.Execution.Retirement.{Orderly}

-- A sequence is done when it was given up, when it has generated as much as it may, or when its
-- prompt is prefilled and the last token that it generated ends a sentence.
pub data IsDone (model : Model) (q : Sequence) : Type 0 where
  marked : q.is_finished ≡ true → IsDone model q
  at_limit : q.max_gen_len ≤ q.num_generated_tokens → IsDone model q
  ended :
      (tokens : List ℕ) (token : ℕ)
      → q.is_prefill_complete ≡ true
      → q.generated_tokens ≡ tokens ++ token ∷ []
      → model.is_sentence_ending token ≡ true
      → IsDone model q

-- The sequences of a list without the property and those with it, each in their order.
pub data Parted (P : Sequence → Type 0)
    : List Sequence → List Sequence → List Sequence → Type 0 where
  parted_nil : Parted P [] [] []
  stays :
      (q : Sequence) (qs kept left : List Sequence)
      → (P q → ⊥)
      → Parted P qs kept left
      → Parted P (q ∷ qs) (q ∷ kept) left
  leaves :
      (q : Sequence) (qs kept left : List Sequence)
      → P q
      → Parted P qs kept left
      → Parted P (q ∷ qs) kept (q ∷ left)

-- The row of the sequence, if it has one, is vacant.
abbrev pub HasVacated : BlockAllocator → Sequence → Type 0
HasVacated a q = (row : ℕ) → q.kv_slot_id ≡ some row → IsVacant row a

-- What update_sequences leaves behind.
pub record Updated (model : Model) (s s' : Scheduler) : Type 0 where
  pub retired : List Sequence
  pub parted : Parted (IsDone model) s.running_sequences s'.running_sequences retired
  pub counted : s'.finished_total ≡ s.finished_total + length retired
  pub vacated : All (HasVacated (pool_of s')) retired
  pub untouched :
      (row : ℕ)
      → All (λ q. q.kv_slot_id ≢ some row) retired
      → ((pool_of s').block_tables row ≡ (pool_of s).block_tables row)
        × ((pool_of s').row_busy row ≡ (pool_of s).row_busy row)
  pub orderly : Orderly s'
  pub same_queue : s'.waiting_queue ≡ s.waiting_queue

last_of : (x : ℕ) (xs : List ℕ) → (tokens : List ℕ) × (t : ℕ) × (x ∷ xs ≡ tokens ++ t ∷ [])
last_of x [] = ([], x, refl)
last_of x (y ∷ ys) = let (tokens, t, e) = last_of y ys in (x ∷ tokens, t, ap (◌∷◌ x) e)

nonempty :
    (xs : List ℕ) → (length xs == 0) ≡ false → (tokens : List ℕ) × (t : ℕ) × (xs ≡ tokens ++ t ∷ [])
nonempty [] h = absurd (ground (arith, h))
nonempty (x ∷ xs) h = last_of x xs

back-append : (tokens : List ℕ) (t : ℕ) → back (tokens ++ t ∷ []) ≡ some t
back-append [] t = refl
back-append (x ∷ []) t = refl
back-append (x ∷ y ∷ ys) t = back-append (y ∷ ys) t

same_some : (m n : ℕ) → some m ≡ some n → m ≡ n
same_some m n e = ground (arith, e)

module _ (model : Model) where
  not_done :
      (q : Sequence)
      → (q.is_finished || leb q.max_gen_len q.num_generated_tokens) ≡ false
      → ((tokens : List ℕ) (token : ℕ)
          → q.is_prefill_complete ≡ true
          → q.generated_tokens ≡ tokens ++ token ∷ []
          → model.is_sentence_ending token ≡ false)
      → IsDone model q
      → ⊥
  not_done q e h (marked m) = ground (arith, e, m)
  not_done q e h (at_limit l) = ground (arith, e, l)
  not_done q e h (ended tokens token p g t) = ground (arith, h tokens token p g, t)

  -- The test of the code agrees with IsDone.
  pub retires-cases :
      (q : Sequence)
      → ((retires model q ≡ some true) × IsDone model q)
        ⊎ ((retires model q ≡ some false) × (IsDone model q → ⊥))
  unfolding retires
  retires-cases q = elim (Bool-cases (q.is_finished || leb q.max_gen_len q.num_generated_tokens)) [
    | inl e ↦ inl (
      rw e refl,
      elim (Bool-cases q.is_finished) [
        | inl f ↦ marked f
        | inr f ↦ at_limit (ground (arith, e, f))
      ],
    )
    | inr e ↦ elim (Bool-cases (q.is_prefill_complete && not (length q.generated_tokens == 0))) [
      | inr f ↦ inr (
        rw (e, f) refl,
        not_done q e (λ tokens token p g.
            absurd (ground (arith, f, p, ap length g, length-append tokens (token ∷ [])))),
      )
      | inl f ↦
          let (tokens, t, g) = nonempty q.generated_tokens (ground (arith, f)) in
          let newest = ap back g ∙ back-append tokens t in
          elim (Bool-cases (model.is_sentence_ending t)) [
            | inl ends ↦
                inl (rw (e, f, newest, ends) refl, ended tokens t (ground (arith, f)) g ends)
            | inr not_yet ↦ inr (
              rw (e, f, newest, not_yet) refl,
              not_done q e (λ tokens' token p g'.
                  ap model.is_sentence_ending
                    (same_some token t (sym (ap back g' ∙ back-append tokens' token) ∙ newest))
                  ∙ not_yet),
            )
          ]
    ]
  ]
