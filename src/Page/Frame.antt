-- ===== src/Page/Frame.antt =====
-- `page_frame` of include/kern/page-pframe.h and the marking macros over its `state` word.
-- Each bit of `state` is a Boolean of its own: the macros set and clear single bits.
use risc_v_workshop.Prelude.{ℕ, Bool, true, false, ◌||◌, Option, none, some, if◌then◌else◌}

-- `page_usage`, and the use-case bit that goes with it
pub data PageUsage : Type 0 where
  kern kstack pgtbl slab anon pcache : PageUsage

abbrev pub same_usage : PageUsage → PageUsage → Bool
same_usage kern kern = true
same_usage kstack kstack = true
same_usage pgtbl pgtbl = true
same_usage slab slab = true
same_usage anon anon = true
same_usage pcache pcache = true
same_usage _ _ = false

-- `headp` is the index of the head page in the same array; the links of the buddy queue are
-- the lists of the pool.
pub record PageFrame : Type 0 where
  pub used : Bool
  pub reserved : Bool
  pub clustered : Bool
  pub ucase : PageUsage → Bool
  pub pfn : ℕ
  pub usecnt : ℕ
  pub mapcnt : ℕ
  pub order : ℕ
  pub headp : Option ℕ

-- PAGE_STATE_NOT_FREED
abbrev pub page_state_not_freed : PageFrame → Bool
page_state_not_freed pf = pf.used || pf.reserved

-- PAGE_MARK_USED, PAGE_UNMARK_USED
abbrev pub page_mark_used : PageFrame → PageFrame
page_mark_used pf = record pf { used = true }

abbrev pub page_unmark_used : PageFrame → PageFrame
page_unmark_used pf = record pf { used = false }

-- PAGE_MARK_RESERVED, PAGE_UNMARK_RESERVED
abbrev pub page_mark_reserved : PageFrame → PageFrame
page_mark_reserved pf = record pf { reserved = true }

abbrev pub page_unmark_reserved : PageFrame → PageFrame
page_unmark_reserved pf = record pf { reserved = false }

-- PAGE_MARK_CLUSTERED, PAGE_UNMARK_CLUSTERED
abbrev pub page_mark_clustered : PageFrame → ℕ → PageFrame
page_mark_clustered pf head = record pf { clustered = true; headp = some head }

abbrev pub page_unmark_clustered : PageFrame → PageFrame
page_unmark_clustered pf = record pf { clustered = false; headp = none }

-- PAGE_MARK_KERN to PAGE_MARK_PCACHE, and the PAGE_UNMARK macros
abbrev pub page_mark_ucase : PageFrame → PageUsage → PageFrame
page_mark_ucase pf usage = record pf {
  ucase = λ u. if same_usage u usage then true else pf.ucase u;
}

abbrev pub page_unmark_ucase : PageFrame → PageUsage → PageFrame
page_unmark_ucase pf usage = record pf {
  ucase = λ u. if same_usage u usage then false else pf.ucase u;
}
