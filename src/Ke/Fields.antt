-- ===== src/Ke/Fields.antt =====
-- base/ke/scheduler.c: a store to a field of a process that the scheduler's lists do not depend on.
use arcos_os.Prelude.{◌≡◌, refl, sym, ◌∙◌, subst, update, update_all}
use arcos_os.Types.{Ptr, Process}
use arcos_os.Ke.Scheduler.{Scheduler}
use arcos_os.Ke.Chain.{Chain-frame}
use arcos_os.Ke.Invariant.{View, Holds, IsLevel, IsSorted-frame}
use arcos_os.Ke.Switch.{IsCurrent}

-- The fields by which the scheduler's lists are read.
pub record SamePlace (r r' : Process) : Type 0 where
  pub next : r'.next_pcb ≡ r.next_pcb
  pub state : r'.state ≡ r.state
  pub priority : r'.priority ≡ r.priority
  pub wake : r'.wake_up_time ≡ r.wake_up_time

SamePlace-refl : (r : Process) → SamePlace r r
SamePlace-refl r = record { next = refl; state = refl; priority = refl; wake = refl }

module _ (s : Scheduler) (p : Ptr) (r : Process) (same : SamePlace (s.procs p) r) where
  abbrev pub with_fields : Scheduler
  with_fields = record s { procs = update s.procs p r }

  at : (a : Ptr) → SamePlace (s.procs a) (with_fields.procs a)
  at =
      update_all (λ a r'. SamePlace (s.procs a) r') s.procs p r same
        (λ a ne. SamePlace-refl (s.procs a))

  pub Holds-with_fields : {v : View} → Holds s v → Holds with_fields v
  Holds-with_fields {v} h = record {
    queue_chain = λ i level.
        Chain-frame s.procs with_fields.procs (s.ready_queues i).first (v.ready i)
          (h.queue_chain i level) (λ a m. (at a).next);
    queue_last = h.queue_last;
    queue_state = λ i a level m. (at a).state ∙ h.queue_state i a level m;
    queue_priority = λ i a level m. (at a).priority ∙ h.queue_priority i a level m;
    blocked_chain =
        Chain-frame s.procs with_fields.procs s.blocked_list v.blocked h.blocked_chain
          (λ a m. (at a).next);
    timer_chain =
        Chain-frame s.procs with_fields.procs s.timer_list v.timers h.timer_chain
          (λ a m. (at a).next);
    blocked_state = λ a m. (at a).state ∙ h.blocked_state a m;
    timer_state = λ a m. (at a).state ∙ h.timer_state a m;
    blocked_level = λ a m. subst IsLevel (sym (at a).priority) (h.blocked_level a m);
    timer_level = λ a m. subst IsLevel (sym (at a).priority) (h.timer_level a m);
    apart = h.apart;
    sorted = IsSorted-frame s.procs with_fields.procs v.timers h.sorted (λ a m. (at a).wake);
  }

  pub IsCurrent-with_fields : {v : View} → IsCurrent s v → IsCurrent with_fields v
  IsCurrent-with_fields c = record {
    ne_null = c.ne_null;
    next_clear = (at s.current).next ∙ c.next_clear;
    level = subst IsLevel (sym (at s.current).priority) c.level;
    off = c.off;
  }
