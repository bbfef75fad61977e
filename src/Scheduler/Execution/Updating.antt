-- ===== src/Scheduler/Execution/Updating.antt =====
-- update_sequences: which sequences go, and what becomes of their rows.
use mathlib.Core.List.{append-nil, append_assoc}
use llm_steady_infer.Base.{
  ℕ, ◌+◌, ◌≡◌, ◌≢◌, refl, sym, ◌∙◌, inl, inr, some, List, [], ◌∷◌, ◌++◌, length, subst, All,
  Returns, Returns-bind, Returns-mono, arith,
}
use llm_steady_infer.BlockAllocator.Release.{IsVacant, Vacated-keeps}
use llm_steady_infer.KvManager.{deallocate}
use llm_steady_infer.Sequence.{Sequence}
use llm_steady_infer.Scheduler.State.{Scheduler}
use llm_steady_infer.Scheduler.Preemption.{pool_of}
use llm_steady_infer.Scheduler.Execution.{Model, update_from, update_sequences}
use llm_steady_infer.Scheduler.Execution.Retirement.{
  HasSlots, Orderly, OneRetired, retire_one-OneRetired, HasSlots-rows, gone,
}
use llm_steady_infer.Scheduler.Execution.Done.{
  HasVacated, IsDone, Parted, Updated, leaves, parted_nil, retires-cases, stays,
}

module _ (model : Model) where
  record UpdatedFrom (qs kept : List Sequence) (s s' : Scheduler) : Type 0 where
    stay : List Sequence
    left : List Sequence
    running : s'.running_sequences ≡ kept ++ stay
    parted : Parted (IsDone model) qs stay left
    counted : s'.finished_total ≡ s.finished_total + length left
    vacated : All (HasVacated (pool_of s')) left
    keeps : (row : ℕ) → IsVacant row (pool_of s) → IsVacant row (pool_of s')
    untouched :
        (row : ℕ)
        → All (λ q. q.kv_slot_id ≢ some row) left
        → ((pool_of s').block_tables row ≡ (pool_of s).block_tables row)
          × ((pool_of s').row_busy row ≡ (pool_of s).row_busy row)
    orderly : Orderly s'
    same_queue : s'.waiting_queue ≡ s.waiting_queue

  UpdatedFrom-stays :
      (q : Sequence) (qs kept : List Sequence) (s s' : Scheduler)
      → (IsDone model q → ⊥)
      → UpdatedFrom qs (kept ++ q ∷ []) s s'
      → UpdatedFrom (q ∷ qs) kept s s'
  UpdatedFrom-stays q qs kept s s' runs u = record {
    stay = q ∷ u.stay;
    left = u.left;
    running = u.running ∙ append_assoc kept (q ∷ []) u.stay;
    parted = stays q qs u.stay u.left runs u.parted;
    counted = u.counted;
    vacated = u.vacated;
    keeps = u.keeps;
    untouched = u.untouched;
    orderly = u.orderly;
    same_queue = u.same_queue;
  }

  UpdatedFrom-leaves :
      (q : Sequence) (qs kept : List Sequence) (s s₁ s' : Scheduler)
      → IsDone model q
      → OneRetired q.kv_slot_id s s₁
      → UpdatedFrom qs kept s₁ s'
      → UpdatedFrom (q ∷ qs) kept s s'
  UpdatedFrom-leaves q qs kept s s₁ s' done one u = record {
    stay = u.stay;
    left = q ∷ u.left;
    running = u.running;
    parted = leaves q qs u.stay u.left done u.parted;
    counted = omega (arith, u.counted, one.total);
    vacated = (λ row e. u.keeps row (one.vacated.vacant row e), u.vacated);
    keeps = λ row h.
        u.keeps row (Vacated-keeps q.kv_slot_id row (pool_of s) (pool_of s₁) one.vacated h);
    untouched = λ row h. (
      (u.untouched row h.1).0 ∙ one.vacated.other_tables row h.0,
      (u.untouched row h.1).1 ∙ one.vacated.other_owners row h.0,
    );
    orderly = u.orderly;
    same_queue = u.same_queue ∙ one.same_queue;
  }

  update_from-UpdatedFrom :
      (qs kept : List Sequence) (s : Scheduler)
      → Orderly s
      → HasSlots s qs
      → Returns (update_from model qs kept s) (UpdatedFrom qs kept s)
  unfolding update_from
  update_from-UpdatedFrom [] kept s o h = record {
    stay = [];
    left = [];
    running = sym (append-nil kept);
    parted = parted_nil;
    counted = omega arith;
    vacated = tt;
    keeps = λ row v. v;
    untouched = λ row v. (refl, refl);
    orderly = record {
      pool = o.pool;
      history = record { accounted = o.history.accounted; bounded = o.history.bounded };
    };
    same_queue = refl;
  }
  update_from-UpdatedFrom (q ∷ qs) kept s o h = elim (retires-cases model q) [
    | inr (e, runs) ↦
        rw (e, update_from)
          (Returns-mono (UpdatedFrom qs (kept ++ q ∷ []) s) (UpdatedFrom (q ∷ qs) kept s)
            (update_from model qs (kept ++ q ∷ []) s)
            (update_from-UpdatedFrom qs (kept ++ q ∷ []) s o h.1)
            (λ s' u. UpdatedFrom-stays q qs kept s s' runs u))
    | inl (e, done) ↦
        rw (e, update_from)
          (Returns-bind (λ m. OneRetired q.kv_slot_id s (gone q s m)) (UpdatedFrom (q ∷ qs) kept s)
            (deallocate q.kv_slot_id s.kv_manager) _ (retire_one-OneRetired q _ s o h.0)
            (λ m one.
              Returns-mono (UpdatedFrom qs kept (gone q s m)) (UpdatedFrom (q ∷ qs) kept s) _
                (update_from-UpdatedFrom qs kept (gone q s m) one.orderly
                  (HasSlots-rows s (gone q s m) qs one.same_rows h.1))
                (λ s' u. UpdatedFrom-leaves q qs kept s (gone q s m) s' done one u)))
  ]

  -- If pool and history are in order and the running sequences' slots are rows of the pool,
  -- update_sequences does not abort and keeps pool and history in order. Exactly the sequences
  -- that are not done run on, in their order; the others are counted as finished, and their rows
  -- have neither owner nor blocks. No other row changes, and the queue stays.
  pub update_sequences-Updated :
      (s : Scheduler)
      → Orderly s
      → HasSlots s s.running_sequences
      → Returns (update_sequences model s) (Updated model s)
  unfolding update_sequences
  update_sequences-Updated s o h =
      Returns-mono (UpdatedFrom s.running_sequences [] s) (Updated model s)
        (update_from model s.running_sequences [] s)
        (update_from-UpdatedFrom s.running_sequences [] s o h)
        (λ s' u. record {
          retired = u.left;
          parted =
              subst (λ r. Parted (IsDone model) s.running_sequences r u.left) (sym u.running)
                u.parted;
          counted = u.counted;
          vacated = u.vacated;
          untouched = u.untouched;
          orderly = u.orderly;
          same_queue = u.same_queue;
        })
