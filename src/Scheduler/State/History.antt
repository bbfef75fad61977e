-- ===== src/Scheduler/State/History.antt =====
-- retire_finished: the retained history.
use llm_steady_infer.Base.{
  ◌+◌, ◌-◌, ◌/◌, ◌≤◌, ◌≡◌, ◌⊎◌, inl, inr, refl, ◌||◌, Bool-cases, [], ◌∷◌, ◌++◌, leb, ◌==◌, length,
  length-append, length-drop, arith,
}
use llm_steady_infer.Sequence.{Sequence}
use llm_steady_infer.Scheduler.State.{Scheduler, retire_finished}

-- Every retired sequence is retained or counted as evicted, and a limit is kept.
pub record HistoryOk (s : Scheduler) : Type 0 where
  pub accounted : length s.finished_sequences + s.finished_evicted ≡ s.finished_total
  pub bounded :
      (s.finished_history_limit ≡ 0) ⊎ (length s.finished_sequences ≤ s.finished_history_limit)

-- retire_finished keeps a history in order, each retired sequence retained or counted as evicted
-- and the limit respected, and counts one more retired sequence.
pub retire_finished-HistoryOk :
    (seq : Sequence) (s : Scheduler)
    → HistoryOk s
    → HistoryOk (retire_finished seq s)
      × ((retire_finished seq s).finished_total ≡ s.finished_total + 1)
unfolding retire_finished
retire_finished-HistoryOk seq s h =
    let retired = s.finished_sequences ++ seq ∷ [] in
    let more = length-append s.finished_sequences (seq ∷ []) in
    elim (Bool-cases
      (s.finished_history_limit == 0 || leb (length retired) s.finished_history_limit)) [
        | inl e ↦ rw e (
          record { accounted = omega (arith, h.accounted, more); bounded = ground (arith) },
          refl,
        )
        | inr e ↦ rw e (
          record {
            accounted = ground (
              arith,
              h.accounted,
              more,
              length-drop
                  (length retired - (s.finished_history_limit - s.finished_history_limit / 4))
                  retired,
            );
            bounded = inr (
                ground (
                  arith,
                  more,
                  length-drop
                      (length retired - (s.finished_history_limit - s.finished_history_limit / 4))
                      retired,
                ));
          },
          refl,
        )
      ]

-- Neither the pool nor the other lists change.
pub retire_finished-same :
    (seq : Sequence) (s : Scheduler)
    → let s' = retire_finished seq s in
      (s'.kv_manager ≡ s.kv_manager)
      × (s'.waiting_queue ≡ s.waiting_queue)
      × (s'.running_sequences ≡ s.running_sequences)
unfolding retire_finished
retire_finished-same seq s =
    let retired = s.finished_sequences ++ seq ∷ [] in
    elim (Bool-cases
      (s.finished_history_limit == 0 || leb (length retired) s.finished_history_limit)) [
        | inl e ↦ rw e (refl, refl, refl)
        | inr e ↦ rw e (refl, refl, refl)
      ]
