-- ===== src/Scheduler/Frame.antt =====
-- What `scheduler_add_process` and `scheduler_remove_process` of src/kernel/scheduler.c leave alone.
use aether_os.Base.{ℕ, ◌≡◌, refl, Option, none, some, List, ap, ◌∙◌}
use aether_os.Process.{Kernel, Process, modify}
use aether_os.Scheduler.{append_process, remove_process, unlink_prev, unlink_next}
use aether_os.Scheduler.Queue.{IsQueue, Links-modify_same, modify-head, modify-tail, modify-count}
use aether_os.Scheduler.Ops.{core, core-modify}
use aether_os.Scheduler.Leave.{past_prev, past_next, unlink_prev-past, unlink_next-past}

module _ (k : Kernel) (a : ℕ) where
  past_prev-core :
      (pv nx : Option ℕ) → core ((past_prev pv nx k).process_table a) ≡ core (k.process_table a)
  past_prev-core none nx = refl
  past_prev-core (some q) nx = core-modify q _ k a (λ r. refl)

  past_next-core :
      (nx pv : Option ℕ) → core ((past_next nx pv k).process_table a) ≡ core (k.process_table a)
  past_next-core none pv = refl
  past_next-core (some q) pv = core-modify q _ k a (λ r. refl)

  past_prev-enabled :
      (pv nx : Option ℕ) → (past_prev pv nx k).scheduler_enabled ≡ k.scheduler_enabled
  unfolding modify
  past_prev-enabled none nx = refl
  past_prev-enabled (some q) nx = refl

  past_next-enabled :
      (nx pv : Option ℕ) → (past_next nx pv k).scheduler_enabled ≡ k.scheduler_enabled
  unfolding modify
  past_next-enabled none pv = refl
  past_next-enabled (some q) pv = refl

-- A process that leaves the queue keeps everything but its links, and so do the others.
pub remove_process-core :
    (p : ℕ) (k : Kernel) (a : ℕ)
    → core ((remove_process p k).process_table a) ≡ core (k.process_table a)
unfolding remove_process
remove_process-core p k a =
    let k1 = unlink_prev p k in
    core-modify p _ (unlink_next p k1) a (λ r. refl)
    ∙ ap (λ (x : Kernel). core (x.process_table a))
        (unlink_next-past p (k1.process_table p).next (k1.process_table p).prev k1 refl refl)
    ∙ past_next-core k1 a (k1.process_table p).next (k1.process_table p).prev
    ∙ ap (λ (x : Kernel). core (x.process_table a))
        (unlink_prev-past p (k.process_table p).prev (k.process_table p).next k refl refl)
    ∙ past_prev-core k a (k.process_table p).prev (k.process_table p).next

pub remove_process-enabled :
    (p : ℕ) (k : Kernel) → (remove_process p k).scheduler_enabled ≡ k.scheduler_enabled
unfolding remove_process modify
remove_process-enabled p k =
    let k1 = unlink_prev p k in
    ap (λ (x : Kernel). x.scheduler_enabled)
      (unlink_next-past p (k1.process_table p).next (k1.process_table p).prev k1 refl refl)
    ∙ past_next-enabled k1 0 (k1.process_table p).next (k1.process_table p).prev
    ∙ ap (λ (x : Kernel). x.scheduler_enabled)
        (unlink_prev-past p (k.process_table p).prev (k.process_table p).next k refl refl)
    ∙ past_prev-enabled k 0 (k.process_table p).prev (k.process_table p).next

pub append_process-core :
    (p : ℕ) (k : Kernel) (a : ℕ) (t : Option ℕ)
    → k.ready_queue_tail ≡ t
    → core ((append_process p k).process_table a) ≡ core (k.process_table a)
unfolding append_process
append_process-core p k a none e = rw e refl
append_process-core p k a (some q) e = rw e (core-modify q _ k a (λ r. refl))

pub append_process-enabled :
    (p : ℕ) (k : Kernel) (t : Option ℕ)
    → k.ready_queue_tail ≡ t
    → (append_process p k).scheduler_enabled ≡ k.scheduler_enabled
unfolding append_process modify
append_process-enabled p k none e = rw e refl
append_process-enabled p k (some q) e = rw e refl

-- A modification that keeps the links and the state of the queue's other fields keeps the queue.
pub IsQueue-modify :
    (p : ℕ) (f : Process → Process) (k : Kernel) (ps : List ℕ)
    → ((r : Process) → (f r).next ≡ r.next)
    → ((r : Process) → (f r).prev ≡ r.prev)
    → IsQueue k ps
    → IsQueue (modify p f k) ps
IsQueue-modify p f k ps n v is = record {
  links = Links-modify_same p f k none none ps n v is.links;
  head = modify-head p f k ∙ is.head;
  tail = modify-tail p f k ∙ is.tail;
  count = modify-count p f k ∙ is.count;
  distinct = is.distinct;
}
