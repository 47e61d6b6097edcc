-- ===== src/Timer.antt =====
-- Wall time and callouts: kern/timer.c, include/kern/timer.h. Times are natural numbers: the kernel's
-- clock starts at 0 and an int64_t second does not run out. Every operation holds the timer's lock;
-- `invoke_callout` lets it go around each call.
pub mod Walltime
pub mod Callout
pub mod Run
mod Tests
use risc_v_workshop.Prelude.{
  ℕ, zero, suc, ◌+◌, ◌*◌, ◌/◌, ◌%◌, ◌^◌, Bool, true, false, Option, none, some, List, [], ◌∷◌, Rc,
  done, fail, Errno, enomem, enoent, ltb, leb, ◌==◌, if◌then◌else◌, ◌&&◌,
}
use risc_v_workshop.Klib.Queue.{queue_add_sort}

abbrev pub timer_ns_per_sec : ℕ
timer_ns_per_sec = 1000000000

pub record Ktimespec : Type 0 where
  pub tv_sec : ℕ
  pub tv_nsec : ℕ

-- An entry is named by its address; the function and its argument are a part of the entry.
pub record CallOutEnt : Type 0 where
  pub address : ℕ
  pub expire : Ktimespec
  pub callout : ℕ
  pub private : ℕ

pub record SystemTimer : Type 0 where
  pub curtime : Ktimespec
  pub head : List CallOutEnt

-- the sign of what a comparison function returns
pub data Sign : Type 0 where
  negative nil positive : Sign

unfoldable pub calloutent_cmp : CallOutEnt → CallOutEnt → Sign
calloutent_cmp key ent =
    if ltb key.expire.tv_sec ent.expire.tv_sec
    then negative
    else if ltb ent.expire.tv_sec key.expire.tv_sec
    then positive
    else if ltb key.expire.tv_nsec ent.expire.tv_nsec
    then negative
    else if ltb ent.expire.tv_nsec key.expire.tv_nsec
    then positive
    else nil

-- the test `calloutent_cmp(key, ent) < 0` of `queue_add_sort`
unfoldable pub expires_before : CallOutEnt → CallOutEnt → Bool
unfolding calloutent_cmp
expires_before key ent = elim (calloutent_cmp key ent) [ negative ↦ true | _ ↦ false ]

-- the expiry that `tim_callout_add` computes
unfoldable pub expire_at : Ktimespec → ℕ → Ktimespec
expire_at now rel_expire_ms =
    let sec = rel_expire_ms / 1000 in
    let nsec = rel_expire_ms % 1000 * 1000 * 1000 in
    if leb timer_ns_per_sec (now.tv_nsec + nsec)
    then record { tv_sec = now.tv_sec + sec + 1; tv_nsec = now.tv_nsec + nsec % timer_ns_per_sec }
    else record { tv_sec = now.tv_sec + sec; tv_nsec = now.tv_nsec + nsec }

-- `alloc` is what `slab_kmem_cache_alloc` gives: the address of a new entry, or its error.
unfoldable pub tim_callout_add : Rc ℕ → ℕ → ℕ → ℕ → SystemTimer → Rc CallOutEnt × SystemTimer
unfolding expire_at
tim_callout_add (fail e) rel_expire_ms callout private timer = (fail e, timer)
tim_callout_add (done address) rel_expire_ms callout private timer =
    let cur : CallOutEnt = record {
      address = address;
      expire = expire_at timer.curtime rel_expire_ms;
      callout = callout;
      private = private;
    } in
    (done cur, record timer { head = queue_add_sort expires_before cur timer.head })

-- the loop of `tim_callout_cancel`: the queue without the entry, if it is there
unfoldable pub cancel_loop : ℕ → List CallOutEnt → Option (List CallOutEnt)
cancel_loop address [] = none
cancel_loop address (cur ∷ rest) =
    let later = cancel_loop address rest in
    if cur.address == address
    then some rest
    else elim later [ none ↦ none | some r ↦ some (cur ∷ r) ]

unfoldable pub tim_callout_cancel : ℕ → SystemTimer → Rc (Unit {0}) × SystemTimer
unfolding cancel_loop
tim_callout_cancel address timer = elim (cancel_loop address timer.head) [
  | none ↦ (fail enoent, timer)
  | some rest ↦ (done tt, record timer { head = rest })
]

-- neither of the two tests of `invoke_callout` that break its loop
unfoldable pub is_due : Ktimespec → CallOutEnt → Bool
is_due now cur =
    if ltb now.tv_sec cur.expire.tv_sec
    then false
    else if (cur.expire.tv_sec == now.tv_sec) && ltb now.tv_nsec cur.expire.tv_nsec
    then false
    else true

-- The loop of `invoke_callout`, with fuel. `call` is what a callout does to the timer while the lock
-- is free; the entries that were called are returned in order. `none`: out of fuel.
unfoldable pub invoke_callout :
    (CallOutEnt → SystemTimer → SystemTimer)
    → ℕ
    → SystemTimer
    → Option (List CallOutEnt × SystemTimer)
unfolding is_due
invoke_callout call zero timer = none
invoke_callout call (suc fuel) timer = elim timer.head [
  | [] ↦ some ([], timer)
  | cur ∷ rest ↦ elim (is_due timer.curtime cur) [
    | false ↦ some ([], timer)
    | true ↦ elim (invoke_callout call fuel (call cur (record timer { head = rest }))) [
      | none ↦ none
      | some (called, last) ↦ some (cur ∷ called, last)
    ]
  ]
]

-- the clock update of `tim_update_walltime`
unfoldable pub advance : Ktimespec → Ktimespec → Ktimespec
advance now ld =
    let nsec = now.tv_nsec + ld.tv_nsec in
    if ltb 0 (nsec / timer_ns_per_sec)
    then record {
      tv_sec = now.tv_sec + nsec / timer_ns_per_sec + ld.tv_sec;
      tv_nsec = nsec % timer_ns_per_sec;
    }
    else record { tv_sec = now.tv_sec + ld.tv_sec; tv_nsec = nsec }

unfoldable pub tim_update_walltime :
    (CallOutEnt → SystemTimer → SystemTimer)
    → ℕ
    → Ktimespec
    → SystemTimer
    → Option (List CallOutEnt × SystemTimer)
tim_update_walltime call fuel diff timer =
    invoke_callout call fuel (record timer { curtime = advance timer.curtime diff })
