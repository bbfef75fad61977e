-- ===== src/Scheduler/Preemption/Flush.antt =====
-- flush_preempted.
use mathlib.Core.List.{reverse-cons, reverse-reverse, append_assoc}
use llm_steady_infer.Base.{
  ◌+◌, ◌≡◌, refl, inl, inr, false, Bool-cases, List, [], ◌∷◌, ◌++◌, reverse, length, All, arith,
}
use llm_steady_infer.Sequence.{Sequence, is_preempted}
use llm_steady_infer.Scheduler.State.{Scheduler}
use llm_steady_infer.Scheduler.Preemption.{
  preempted_of, not_preempted_of, push_front_all, flush_preempted,
}

push_front_all-reverse : (qs ws : List Sequence) → push_front_all qs ws ≡ reverse qs ++ ws
push_front_all-reverse [] ws = refl
push_front_all-reverse (q ∷ qs) ws =
    rw (reverse-cons q qs, push_front_all-reverse qs (q ∷ ws), append_assoc) refl

not_preempted_of-All :
    (qs : List Sequence) → All (λ q. is_preempted q ≡ false) (not_preempted_of qs)
not_preempted_of-All [] = tt
not_preempted_of-All (q ∷ qs) = elim (Bool-cases (is_preempted q)) [
  | inl e ↦ rw e (not_preempted_of-All qs)
  | inr e ↦ rw e (e, not_preempted_of-All qs)
]

split_length :
    (qs : List Sequence) → length (preempted_of qs) + length (not_preempted_of qs) ≡ length qs
split_length [] = refl
split_length (q ∷ qs) = ground (arith, split_length qs)

-- What flush_preempted leaves.
pub record Flushed (s s' : Scheduler) : Type 0 where
  pub queue : s'.waiting_queue ≡ preempted_of s.running_sequences ++ s.waiting_queue
  pub none_preempted : All (λ q. is_preempted q ≡ false) s'.running_sequences
  pub running : s'.running_sequences ≡ not_preempted_of s.running_sequences
  pub accounted :
      length (preempted_of s.running_sequences) + length s'.running_sequences
      ≡ length s.running_sequences

-- flush_preempted puts the preempted sequences in front of the queue, the oldest first, keeps the
-- others running in their order, and loses none.
pub flush_preempted-Flushed : (s : Scheduler) → Flushed s (flush_preempted s)
unfolding flush_preempted
flush_preempted-Flushed s = record {
  queue =
      rw
        (
          push_front_all-reverse (reverse (preempted_of s.running_sequences)) s.waiting_queue,
          reverse-reverse,
        )
        refl;
  none_preempted = not_preempted_of-All s.running_sequences;
  running = refl;
  accounted = split_length s.running_sequences;
}
