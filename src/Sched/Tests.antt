-- ===== src/Sched/Tests.antt =====
-- A processor with an idle thread, a thread that runs and one that is ready.
use risc_v_workshop.Prelude.{
  ℕ, zero, suc, ◌<◌, ◌≡◌, refl, arith, true, false, some, [], Ensures, is_empty, ◌>>=◌,
}
use risc_v_workshop.Klib.Bitops.{bitops_ffs, scan_up, element_ffs, bitops_ffs64, ffs_loop}
use risc_v_workshop.Klib.Bitops.Bit.{isset_zero}
use risc_v_workshop.Sched.{
  modify, take_from, Sched, Thread, ThrState, run, runable, link_thread, sched_thread_add,
  get_next_thread, sched_schedule, sched_prio_nr,
}
use risc_v_workshop.Sched.Counts.{count}
use risc_v_workshop.Sched.Ready.{Ready}
use risc_v_workshop.Sched.Add.{Linked, sched_thread_add-Linked, link_thread-Linked}
use risc_v_workshop.Sched.Next.{PickedOutcome, get_next_thread-Picked}
use risc_v_workshop.Sched.Switch.{Scheduled, schedule-Scheduled}
use risc_v_workshop.Sched.Woken.{Stranded, schedule-Stranded}

abbrev pub thread_in : ThrState → ℕ → Thread
thread_in state prio = record {
  state = state;
  cur_prio = prio;
  refs = 1;
  linked = false;
  cpu = 0;
  intrcnt = 0;
  preempt = 0;
  preempt_active = false;
  dispatch_delayed = false;
  event_pending = false;
  switched_out = true;
}

-- thread 1 is the current one, in a state that the test gives
abbrev pub threads : ThrState → ℕ → Thread
threads state zero = thread_in runable 255
threads state (suc zero) = thread_in state 130
threads state (suc (suc n)) = thread_in runable 100

abbrev pub start : ThrState → Sched
start state = record {
  que = λ p. [];
  bitmap = λ i. 0;
  thread = threads state;
  cpu = 0;
  current = 1;
  idle_threads = λ c. some 0;
}

threads_free : (state : ThrState) (t : ℕ) → (threads state t).linked ≡ false
threads_free state zero = refl
threads_free state (suc zero) = refl
threads_free state (suc (suc n)) = refl

threads_prio : (state : ThrState) (t : ℕ) → (threads state t).cur_prio < sched_prio_nr
threads_prio state zero = omega arith
threads_prio state (suc zero) = omega arith
threads_prio state (suc (suc n)) = omega arith

pub start-Ready : (state : ThrState) → Ready (start state)
unfolding count
start-Ready state = record {
  words = λ i. omega arith;
  mapped = λ p h. isset_zero (λ i. 0) 4 p (λ i a b. refl) h;
  queued = λ p t h. rw (threads_free state t) refl;
  runable = λ t l. let f = threads_free state t in absurd (cc);
  valid = threads_prio state;
}

-- thread 2 ready, thread 1 running
abbrev one_ready : Sched
one_ready = link_thread 2 (start run)

one_ready-Ready : Ready one_ready
one_ready-Ready = (link_thread-Linked 2 (start run) (start-Ready run) refl refl).ready

sched_thread_add-Linked_example : Ensures (Linked 2 (start run)) (sched_thread_add 2 (start run))
sched_thread_add-Linked_example =
    sched_thread_add-Linked 2 (start run) (start-Ready run) refl refl refl

get_next_thread-Picked_example : Ensures (PickedOutcome one_ready) (get_next_thread one_ready)
get_next_thread-Picked_example = get_next_thread-Picked one_ready one_ready-Ready

schedule-Scheduled_example : Ensures (Scheduled 0 one_ready) (sched_schedule one_ready)
unfolding link_thread
schedule-Scheduled_example = schedule-Scheduled 0 one_ready refl refl one_ready-Ready refl refl

-- thread 2 ready for the first time
abbrev new_ready : Sched
new_ready = modify 2 (λ t. record t { switched_out = false }) one_ready

-- It runs while it is marked as runnable,
starts_new :
    Ensures
      (λ after. (after.current ≡ 2) × ((after.thread 2).state ≡ runable))
      (sched_schedule new_ready)
unfolding link_thread sched_schedule bitops_ffs scan_up element_ffs bitops_ffs64 ffs_loop take_from
starts_new = (refl, refl)

-- so that its own call of the scheduler does not put it back.
new_lost :
    Ensures
      (λ after. (after.current ≡ 1) × (after.que 100 ≡ []))
      (sched_schedule new_ready >>= sched_schedule)
unfolding link_thread sched_schedule bitops_ffs scan_up element_ffs bitops_ffs64 ffs_loop take_from
new_lost = (refl, refl)

-- thread 1 woken before it gave the processor up
abbrev woken : Sched
woken = link_thread 1 (start runable)

woken-Ready : Ready woken
woken-Ready = (link_thread-Linked 1 (start runable) (start-Ready runable) refl refl).ready

nothing_above : (p : ℕ) → p < 130 → is_empty (woken.que p) ≡ true
unfolding link_thread
nothing_above p h = ground arith

schedule-Stranded_example : Ensures (Stranded woken) (sched_schedule woken)
unfolding link_thread
schedule-Stranded_example = schedule-Stranded woken woken-Ready [] refl nothing_above refl
