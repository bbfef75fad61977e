-- ===== src/Scheduler/State/Requests.antt =====
-- add_request.
use llm_steady_infer.Base.{
  ℕ, zero, suc, ◌+◌, ◌-◌, ◌≤◌, ◌<◌, ◌≡◌, ◌⊎◌, inl, inr, refl, Bool-cases, Option, none, some, List,
  [], ◌∷◌, ◌++◌, leb, ◌==◌, length, min, arith,
}
use llm_steady_infer.Sequence.{Sequence, waiting}
use llm_steady_infer.Scheduler.State.{Scheduler, at_least_one, new_sequence, add_request}

-- The request is rejected: its id is used up and nothing else changes.
pub record Rejected (prompt : List ℕ) (s s' : Scheduler) (r : Option ℕ) : Type 0 where
  pub reason : (length prompt ≡ 0) ⊎ (s.max_seq_len ≤ length prompt)
  pub no_id : r ≡ none
  pub unchanged : s' ≡ record s { next_seq_id = s.next_seq_id + 1 }

-- The request is the last of the queue, in its initial state, and fits into the cache.
pub record Accepted (prompt : List ℕ) (s s' : Scheduler) (r : Option ℕ) : Type 0 where
  pub seq : Sequence
  pub queued :
      s' ≡ record s { next_seq_id = s.next_seq_id + 1; waiting_queue = s.waiting_queue ++ seq ∷ [] }
  pub id : r ≡ some s.next_seq_id
  pub same_id : seq.id ≡ s.next_seq_id
  pub prompt_tokens : seq.prompt_tokens ≡ prompt
  pub nonempty : 0 < length prompt
  pub generates : 0 < seq.max_gen_len
  pub fits : length prompt + seq.max_gen_len ≤ s.max_seq_len
  pub limited : (seq.max_gen_len ≤ s.max_gen_len) ⊎ (seq.max_gen_len ≡ 1)
  pub waits : seq.state ≡ waiting

-- add_request rejects exactly an empty prompt and one that leaves no room for a token; any other
-- prompt is queued last, under the next id, with a positive limit that keeps the whole request
-- within max_seq_len.
pub add_request-outcome :
    (prompt : List ℕ) (s : Scheduler)
    → let (s', r) = add_request prompt s in Rejected prompt s s' r ⊎ Accepted prompt s s' r
unfolding add_request
add_request-outcome prompt s = elim (Bool-cases (length prompt == 0)) [
  | inl e ↦ rw e (inl (record { reason = inl (ground arith); no_id = refl; unchanged = refl }))
  | inr e ↦ rw e (elim (Bool-cases (leb s.max_seq_len (length prompt))) [
    | inl f ↦ rw f (inl (record { reason = inr (ground arith); no_id = refl; unchanged = refl }))
    | inr f ↦ rw f (
        inr (record {
          seq =
              new_sequence s.next_seq_id prompt
                (at_least_one (min s.max_gen_len (s.max_seq_len - length prompt)));
          queued = refl;
          id = refl;
          same_id = refl;
          prompt_tokens = refl;
          nonempty = ground arith;
          generates = (limit (min s.max_gen_len (s.max_seq_len - length prompt))).0;
          fits = ground (arith, (limit (min s.max_gen_len (s.max_seq_len - length prompt))).1);
          limited = ground (arith, (limit (min s.max_gen_len (s.max_seq_len - length prompt))).1);
          waits = refl;
        }))
  ])
]
  where
    limit : (n : ℕ) → (0 < at_least_one n) × ((at_least_one n ≡ n) ⊎ (n ≡ 0) × (at_least_one n ≡ 1))
    limit zero = (omega arith, inr (refl, refl))
    limit (suc n) = (omega arith, inl refl)
