-- ===== src/Scheduler.antt =====
-- source/scheduler/scheduler.cpp: one step, built from the parts that the children model.
pub mod State
pub mod Preemption
pub mod Batch
pub mod Admission
pub mod Execution
pub mod Examples
use llm_steady_infer.Base.{Option, none, some, List, [], ◌∷◌, ◌>>=◌}
use llm_steady_infer.Scheduler.State.{Scheduler}
use llm_steady_infer.Scheduler.Preemption.{flush_preempted}
use llm_steady_infer.Scheduler.Batch.{build_batch_rows}
use llm_steady_infer.Scheduler.Admission.{try_admit_sequences}
use llm_steady_infer.Scheduler.Execution.{
  Model, execute_batch, record_committed_prefill, update_sequences,
}

-- step(), without the periodic flush of the device pool.
unfoldable pub step : Model → Scheduler → Option Scheduler
step model s = do
  admitted ← try_admit_sequences s
  b ← build_batch_rows admitted
  executed ← elim b.rows [
    | [] ↦ some b.scheduler
    | r ∷ rs ↦ do s' ← execute_batch model (r ∷ rs) b.scheduler; record_committed_prefill s'
  ]
  updated ← update_sequences model (record executed { batch_row_seqs = [] })
  some (flush_preempted updated)
