-- ===== src/Klib/Memory/Tests.antt =====
-- Eight bytes, moved, compared and searched.
use risc_v_workshop.Prelude.{ℕ, ◌<◌, ◌≡◌, arith, ltb, if◌then◌else◌}
use risc_v_workshop.Klib.Memory.{memmove, memcmp}
use risc_v_workshop.Klib.Memory.Move.{copied, memmove-copied}
use risc_v_workshop.Klib.Memory.Compare.{MemcmpOutcome, memcmp-Outcome}

abbrev eight_bytes : ℕ → ℕ
eight_bytes p = if ltb p 4 then 10 else 200

eight_bytes_fit : (p : ℕ) → eight_bytes p < 256
eight_bytes_fit p = ground arith

memmove-copied_example : memmove 2 1 4 eight_bytes 5 ≡ copied 2 1 4 eight_bytes 5
memmove-copied_example = memmove-copied 2 1 4 eight_bytes 5

memcmp-Outcome_example : MemcmpOutcome eight_bytes 4 1 3 (memcmp 4 1 3 eight_bytes)
memcmp-Outcome_example = memcmp-Outcome eight_bytes eight_bytes_fit 3 4 1
