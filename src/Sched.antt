-- ===== src/Sched.antt =====
-- The scheduler of one logical processor: kern/sched-queue.c, and the flags and counters of
-- kern/thr-preempt.c that it reads. A thread is named by its address. Every operation holds the locks
-- that the source takes, with interrupts off.
pub mod Counts
pub mod Ready
pub mod Change
pub mod Add
pub mod Next
pub mod Resume
pub mod Switch
pub mod Woken
pub mod Tests
use risc_v_workshop.Prelude.{
  ℕ, ◌+◌, ◌-◌, Bool, true, false, not, ◌&&◌, ◌||◌, Option, none, some, List, [], ◌∷◌, ◌++◌, leb,
  ◌==◌, if◌then◌else◌, is_empty, remove, update, ◌>>=◌,
}
use risc_v_workshop.Klib.Bitops.{bitops_ffs, bitops_set, bitops_clr}

abbrev pub sched_prio_nr : ℕ
sched_prio_nr = 256

-- THR_TSTATE_DORMANT to THR_TSTATE_DEAD
pub data ThrState : Type 0 where
  dormant run runable wait exit dead : ThrState

abbrev pub is_runable : ThrState → Bool
is_runable runable = true
is_runable _ = false

abbrev pub is_run : ThrState → Bool
is_run run = true
is_run _ = false

-- A thread with its thread_info. `linked` is the negation of `list_not_linked(&thr->link)`; `flags` and
-- the top bit of `preempt` are one Boolean for each bit that is used. `switched_out` is whether the
-- thread's stack was left in a call of `thr_thread_switch`, as it is not for a new thread.
pub record Thread : Type 0 where
  pub state : ThrState
  pub cur_prio : ℕ
  pub refs : ℕ
  pub linked : Bool
  pub cpu : ℕ
  pub intrcnt : ℕ
  pub preempt : ℕ
  pub preempt_active : Bool
  pub dispatch_delayed : Bool
  pub event_pending : Bool
  pub switched_out : Bool

-- The ready queue with its bitmap, the threads, and this processor: its number, the thread that runs
-- on it, and the idle threads.
pub record Sched : Type 0 where
  pub que : ℕ → List ℕ
  pub bitmap : ℕ → ℕ
  pub thread : ℕ → Thread
  pub cpu : ℕ
  pub current : ℕ
  pub idle_threads : ℕ → Option ℕ

-- thread[t] = f(thread[t])
abbrev pub modify : ℕ → (Thread → Thread) → Sched → Sched
modify t f s = record s { thread = update s.thread t (f (s.thread t)) }

abbrev pub set_state : ThrState → Thread → Thread
set_state st t = record t { state = st }

abbrev pub set_active : Bool → Thread → Thread
set_active b t = record t { preempt_active = b }

abbrev pub set_delayed : Bool → Thread → Thread
set_delayed b t = record t { dispatch_delayed = b }

abbrev pub set_out : Thread → Thread
set_out t = record t { switched_out = true }

abbrev pub ti_update_current_cpu : Sched → Sched
ti_update_current_cpu s = modify s.current (λ t. record t { cpu = s.cpu }) s

abbrev pub ti_dispatch_disabled : Sched → Bool
ti_dispatch_disabled s =
    let ti = s.thread s.current in
    ti.preempt_active || not (ti.preempt == 0) || not (ti.intrcnt == 0)

abbrev pub ti_set_delay_dispatch : ℕ → Sched → Sched
ti_set_delay_dispatch t = modify t (set_delayed true)

abbrev pub ti_clr_delay_dispatch : Sched → Sched
ti_clr_delay_dispatch s = modify s.current (set_delayed false) s

abbrev pub ti_set_preempt_active : Sched → Sched
ti_set_preempt_active s = modify s.current (set_active true) s

abbrev pub ti_clr_preempt_active : Sched → Sched
ti_clr_preempt_active s = modify s.current (set_active false) s

-- The code of `get_next_thread` behind the search, for the bit's position from 1. `none` in the result is
-- the null pointer. The top of an empty queue would be the queue's own head, taken for a thread: no result.
unfoldable pub take_from : Sched → ℕ → Option (Option ℕ × Sched)
take_from s idx = if idx == 0 then some (none, s) else elim (s.que (idx - 1)) [
  | [] ↦ none
  | thr ∷ rest ↦
      if is_runable (s.thread thr).state
      then some (
        some thr,
        record (modify thr (λ t. record t { linked = false }) s) {
          que = update s.que (idx - 1) rest;
          bitmap = if is_empty rest then bitops_clr (idx - 1) s.bitmap else s.bitmap;
        },
      )
      else none
]

unfoldable pub get_next_thread : Sched → Option (Option ℕ × Sched)
get_next_thread s = bitops_ffs s.bitmap 32 8 >>= take_from s

-- `thr_ref_inc` of a thread that has a reference, and `thr_ref_dec` of one that has two.
abbrev pub thr_ref_inc : ℕ → Sched → Sched
thr_ref_inc thr = modify thr (λ t. record t { refs = t.refs + 1 })

abbrev pub thr_ref_dec : ℕ → Sched → Sched
thr_ref_dec thr = modify thr (λ t. record t { refs = t.refs - 1 })

-- the part of `sched_thread_add` that sets the bit and links the thread
unfoldable pub link_thread : ℕ → Sched → Sched
link_thread thr s =
    let prio = (s.thread thr).cur_prio in
    record (modify thr (λ t. record t { linked = true }) s) {
      que = update s.que prio (s.que prio ++ thr ∷ []);
      bitmap = if is_empty (s.que prio) then bitops_set prio s.bitmap else s.bitmap;
    }

-- `thr_ref_dec` after `thr_ref_inc` cannot give up the last reference.
unfoldable pub sched_thread_add : ℕ → Sched → Option Sched
unfolding link_thread
sched_thread_add thr s =
    let t = s.thread thr in
    let queued = thr_ref_dec thr (link_thread thr (thr_ref_inc thr s)) in
    if t.refs == 0
    then some s
    else if t.linked || not (is_runable t.state)
    then none
    else if t.cpu == s.cpu
    then some (ti_set_delay_dispatch s.current queued)
    else some queued

unfoldable pub sched_thread_del : ℕ → Sched → Sched
sched_thread_del thr s =
    let prio = (s.thread thr).cur_prio in
    let rest = remove thr (s.que prio) in
    record (modify thr (λ t. record t { linked = false }) s) {
      que = update s.que prio rest;
      bitmap = if is_empty rest then bitops_clr prio s.bitmap else s.bitmap;
    }

-- The code behind `hal_thread_switch`, for the thread whose stack is taken up.
unfoldable pub resume : Sched → Sched
resume s = ti_clr_preempt_active (modify s.current (set_state run) (ti_update_current_cpu s))

-- From the test `prev->state == THR_TSTATE_RUN` on. The code behind `hal_thread_switch` runs on the
-- stack of `next`, if that one was left in its own call of `sched_schedule`. A new thread starts at the
-- return from a trap instead, which changes nothing here.
unfoldable pub switch_to : ℕ → Sched → Option Sched
unfolding sched_thread_add resume
switch_to next s =
    let prev = s.current in
    let queued = sched_thread_add prev (modify prev (set_state runable) s) in
    let kept = if is_run (s.thread prev).state then queued else some s in
    kept >>= λ left.
    let cur = record (modify prev set_out left) { current = next } in
    if (left.thread next).switched_out then some (resume cur) else some cur

-- if ( next == NULL ) next = idle_threads[cur_cpu];
abbrev pub or_idle : Option ℕ → Option ℕ → Option ℕ
or_idle none idle = idle
or_idle (some thr) idle = some thr

-- From there to the end, once preemption is off and the next thread has been looked for.
unfoldable pub dispatch : Option ℕ × Sched → Option Sched
unfolding switch_to
dispatch (found, picked) = elim (or_idle found (picked.idle_threads picked.cpu)) [
  | none ↦ none
  | some next ↦
      let cleared = ti_clr_delay_dispatch picked in
      if picked.current == next
      then some (ti_clr_preempt_active cleared)
      else switch_to next cleared
]

unfoldable pub sched_schedule : Sched → Option Sched
unfolding get_next_thread dispatch
sched_schedule s =
    if ti_dispatch_disabled s
    then some (ti_set_delay_dispatch s.current s)
    else get_next_thread (ti_set_preempt_active s) >>= dispatch
