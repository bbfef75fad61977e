-- ===== src/Scheduler/Execution/Retirement.antt =====
-- force_finish_all: who is retired.
use llm_steady_infer.Base.{
  ℕ, suc, ◌+◌, ◌≡◌, refl, sym, ap, ◌∙◌, subst, inl, inr, true, Bool-cases, Option, none, some, List,
  [], ◌∷◌, if◌then◌else◌, All, All-mono, Returns, Returns-bind, Returns-mono, arith,
}
use llm_steady_infer.BlockAllocator.{free_all}
use llm_steady_infer.BlockAllocator.Invariant.{Inv}
use llm_steady_infer.BlockAllocator.Release.{IsSlot, Vacated, free_all-Inv}
use llm_steady_infer.KvManager.{KvManager, deallocate}
use llm_steady_infer.Sequence.{Sequence, finished}
use llm_steady_infer.Scheduler.State.{Scheduler, retire_finished}
use llm_steady_infer.Scheduler.State.History.{
  HistoryOk, retire_finished-HistoryOk, retire_finished-same,
}
use llm_steady_infer.Scheduler.Preemption.{pool_of}
use llm_steady_infer.Scheduler.Execution.{finish_each, force_finish_all}

-- Every sequence's slot is a row of the pool.
abbrev pub HasSlots : Scheduler → List Sequence → Type 0
HasSlots s qs = All (λ q. IsSlot (pool_of s) q.kv_slot_id) qs

-- The pool and the history are in order.
pub record Orderly (s : Scheduler) : Type 0 where
  pub pool : Inv (pool_of s)
  pub history : HistoryOk s

-- One sequence goes, and the row at its slot becomes vacant.
pub record OneRetired (slot : Option ℕ) (s s' : Scheduler) : Type 0 where
  pub orderly : Orderly s'
  pub total : s'.finished_total ≡ s.finished_total + 1
  pub same_rows : (pool_of s').num_rows ≡ (pool_of s).num_rows
  pub same_queue : s'.waiting_queue ≡ s.waiting_queue
  pub same_running : s'.running_sequences ≡ s.running_sequences
  pub vacated : Vacated slot (pool_of s) (pool_of s')

retired-OneRetired :
    (slot : Option ℕ) (r : Sequence) (s s' : Scheduler)
    → Inv (pool_of s')
    → HistoryOk s'
    → (pool_of s').num_rows ≡ (pool_of s).num_rows
    → s'.finished_total ≡ s.finished_total
    → s'.waiting_queue ≡ s.waiting_queue
    → s'.running_sequences ≡ s.running_sequences
    → Vacated slot (pool_of s) (pool_of s')
    → OneRetired slot s (retire_finished r s')
retired-OneRetired slot r s s' valid h rows total queue running vacated =
    let (kv, ws, rs) = retire_finished-same r s' in
    let same_pool : pool_of (retire_finished r s') ≡ pool_of s' = ap (λ m. m.block_allocator) kv in
    record {
      orderly = record {
        pool = subst Inv (sym same_pool) valid;
        history = (retire_finished-HistoryOk r s' h).0;
      };
      total = (retire_finished-HistoryOk r s' h).1 ∙ ap (λ n. n + 1) total;
      same_rows = ap (λ a. a.num_rows) same_pool ∙ rows;
      same_queue = ws ∙ queue;
      same_running = rs ∙ running;
      vacated = subst (Vacated slot (pool_of s)) (sym same_pool) vacated;
    }

pub retire_one-OneRetired :
    (q r : Sequence) (s : Scheduler)
    → Orderly s
    → IsSlot (pool_of s) q.kv_slot_id
    → Returns
        (deallocate q.kv_slot_id s.kv_manager)
        (λ m. OneRetired q.kv_slot_id s (retire_finished r (record s { kv_manager = m })))
unfolding deallocate
retire_one-OneRetired q r s o h =
    Returns-bind
      (λ a. Inv a × (a.num_rows ≡ (pool_of s).num_rows) × Vacated q.kv_slot_id (pool_of s) a)
      (λ m. OneRetired q.kv_slot_id s (retire_finished r (record s { kv_manager = m })))
      (free_all q.kv_slot_id (pool_of s)) _ (free_all-Inv q.kv_slot_id (pool_of s) o.pool h)
      (λ a (valid, rows, vacated).
        retired-OneRetired q.kv_slot_id r s
          (record s { kv_manager = record s.kv_manager { block_allocator = a } }) valid
          (record { accounted = o.history.accounted; bounded = o.history.bounded }) rows refl refl
          refl vacated)

pub HasSlots-rows :
    (s s' : Scheduler) (qs : List Sequence)
    → (pool_of s').num_rows ≡ (pool_of s).num_rows
    → HasSlots s qs
    → HasSlots s' qs
HasSlots-rows s s' qs e =
    All-mono (λ q. IsSlot (pool_of s) q.kv_slot_id) (λ q. IsSlot (pool_of s') q.kv_slot_id) qs
      (λ q. slot q.kv_slot_id)
  where
    slot : (k : Option ℕ) → IsSlot (pool_of s) k → IsSlot (pool_of s') k
    slot none h = tt
    slot (some row) h = rw e h

-- The scheduler behind the retirement of `q`, whose row is dropped in `m`.
abbrev pub gone : Sequence → Scheduler → KvManager → Scheduler
gone q s m =
    retire_finished (record q { is_finished = true; state = finished })
      (record s { kv_manager = m })

-- The sequences that are not marked finished.
abbrev pub unfinished : List Sequence → ℕ
unfinished [] = 0
unfinished (q ∷ qs) = if q.is_finished then unfinished qs else suc (unfinished qs)

-- Some sequences were retired; the queue is as it was.
pub record Retired (n : ℕ) (s s' : Scheduler) : Type 0 where
  pub orderly : Orderly s'
  pub total : s'.finished_total ≡ s.finished_total + n
  pub same_rows : (pool_of s').num_rows ≡ (pool_of s).num_rows
  pub same_queue : s'.waiting_queue ≡ s.waiting_queue

Retired-after :
    (slot : Option ℕ) (n k : ℕ) (s s₁ s' : Scheduler)
    → OneRetired slot s s₁
    → k ≡ suc n
    → Retired n s₁ s'
    → Retired k s s'
Retired-after slot n k s s₁ s' one e r = record {
  orderly = r.orderly;
  total = omega (arith, r.total, one.total, e);
  same_rows = r.same_rows ∙ one.same_rows;
  same_queue = r.same_queue ∙ one.same_queue;
}

finish_each-Retired :
    (qs : List Sequence) (s : Scheduler)
    → Orderly s
    → HasSlots s qs
    → Returns (finish_each qs s) (Retired (unfinished qs) s)
unfolding finish_each
finish_each-Retired [] s o h = record {
  orderly = o;
  total = omega arith;
  same_rows = refl;
  same_queue = refl;
}
finish_each-Retired (q ∷ qs) s o h = elim (Bool-cases q.is_finished) [
  | inl e ↦ rw (e, finish_each) (finish_each-Retired qs s o h.1)
  | inr e ↦
      rw (e, finish_each)
        (Returns-bind (λ m. OneRetired q.kv_slot_id s (gone q s m))
          (Retired (suc (unfinished qs)) s) (deallocate q.kv_slot_id s.kv_manager) _
          (retire_one-OneRetired q _ s o h.0)
          (λ m one.
            Returns-mono (Retired (unfinished qs) (gone q s m)) (Retired (suc (unfinished qs)) s) _
              (finish_each-Retired qs (gone q s m) one.orderly
                (HasSlots-rows s (gone q s m) qs one.same_rows h.1))
              (λ s' r.
                Retired-after q.kv_slot_id (unfinished qs) (suc (unfinished qs)) s (gone q s m) s'
                  one (omega arith) r)))
]

-- If pool and history are in order and the running sequences' slots are rows of the pool,
-- force_finish_all does not abort and keeps pool and history in order. Nothing runs afterwards,
-- and as many sequences are retired as were not marked finished before.
pub force_finish_all-Retired :
    (s : Scheduler)
    → Orderly s
    → HasSlots s s.running_sequences
    → Returns
        (force_finish_all s)
        (λ s'. Retired (unfinished s.running_sequences) s s' × (s'.running_sequences ≡ []))
unfolding force_finish_all
force_finish_all-Retired s o h =
    Returns-bind (Retired (unfinished s.running_sequences) s) _ (finish_each s.running_sequences s)
      _ (finish_each-Retired s.running_sequences s o h)
      (λ s' r. (
        record {
          orderly = record {
            pool = r.orderly.pool;
            history = record {
              accounted = r.orderly.history.accounted;
              bounded = r.orderly.history.bounded;
            };
          };
          total = r.total;
          same_rows = r.same_rows;
          same_queue = r.same_queue;
        },
        refl,
      ))
