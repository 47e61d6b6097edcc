-- ===== src/Sched/Ready.antt =====
-- The invariant of the ready queue: the bitmap shows which queues hold a thread, and a thread is in the
-- queue of its priority, once, exactly if it is linked.
use risc_v_workshop.Prelude.{
  ℕ, ◌^◌, ◌<◌, ◌≡◌, refl, ◌∙◌, arith, Bool-cases, inl, inr, true, false, not, ◌&&◌, List, ◌==◌,
  if◌then◌else◌, is_empty, update, update_at, update_other,
}
use native.Mathlib.Decide.{ℕ_discrete}
use risc_v_workshop.Klib.Bitops.{bitops_isset, bitops_set, bitops_clr}
use risc_v_workshop.Klib.Bitops.Bit.{isset_lem}
use risc_v_workshop.Sched.{Sched, Thread, sched_prio_nr, is_runable}
use risc_v_workshop.Sched.Counts.{count}

abbrev pub expected : Thread → ℕ → ℕ
expected t p = if t.linked && (t.cur_prio == p) then 1 else 0

pub record Ready (s : Sched) : Type 0 where
  pub words : (i : ℕ) → s.bitmap i < 2 ^ 64
  pub mapped : (p : ℕ) → p < sched_prio_nr → bitops_isset p s.bitmap ≡ not (is_empty (s.que p))
  pub queued : (p t : ℕ) → p < sched_prio_nr → count t (s.que p) ≡ expected (s.thread t) p
  pub runable : (t : ℕ) → (s.thread t).linked ≡ true → is_runable (s.thread t).state ≡ true
  pub valid : (t : ℕ) → (s.thread t).cur_prio < sched_prio_nr

-- One queue is replaced, and the bit of its priority set to what it must be.
mapped_update :
    (map newmap : ℕ → ℕ) (que : ℕ → List ℕ) (q : ℕ) (xs : List ℕ)
    → ((p : ℕ) → p < sched_prio_nr → bitops_isset p map ≡ not (is_empty (que p)))
    → ((p : ℕ) → bitops_isset p newmap ≡ (if p == q then not (is_empty xs) else bitops_isset p map))
    → (p : ℕ) → p < sched_prio_nr
    → bitops_isset p newmap ≡ not (is_empty (update que q xs p))
mapped_update map newmap que q xs old new p below = elim (ℕ_discrete q p) [
  | yes e ↦
      let same : (p == q) ≡ true = ground arith in new p ∙ rw (same, update_at que q p xs e) refl
  | no d ↦
      let other : (p == q) ≡ false = ground arith in
      new p ∙ rw (other, update_other que q p xs d) (old p below)
]

-- The bitmap that each operation leaves: set, cleared, or as it was.
pub set_if :
    (map : ℕ → ℕ) (que : ℕ → List ℕ) (q : ℕ) (xs : List ℕ)
    → ((p : ℕ) → p < sched_prio_nr → bitops_isset p map ≡ not (is_empty (que p)))
    → q < sched_prio_nr
    → is_empty xs ≡ false
    → (p : ℕ) → p < sched_prio_nr
    → bitops_isset p (if is_empty (que q) then bitops_set q map else map)
      ≡ not (is_empty (update que q xs p))
set_if map que q xs old inside full =
    mapped_update map (if is_empty (que q) then bitops_set q map else map) que q xs old (λ p.
      elim (Bool-cases (is_empty (que q))) [
        | inl e ↦ rw (e, full) (isset_lem q p map).0
        | inr e ↦
            rw (e, full)
              (elim (ℕ_discrete p q) [
                | yes same ↦
                    let t : (p == q) ≡ true = ground arith in
                    rw (t, same) (old q inside ∙ rw e refl)
                | no other ↦ let f : (p == q) ≡ false = ground arith in rw f refl
              ])
      ])

pub clr_if :
    (map : ℕ → ℕ) (que : ℕ → List ℕ) (q : ℕ) (xs : List ℕ)
    → ((p : ℕ) → p < sched_prio_nr → bitops_isset p map ≡ not (is_empty (que p)))
    → q < sched_prio_nr
    → (is_empty (que q) ≡ true → is_empty xs ≡ true)
    → (p : ℕ) → p < sched_prio_nr
    → bitops_isset p (if is_empty xs then bitops_clr q map else map)
      ≡ not (is_empty (update que q xs p))
clr_if map que q xs old inside full =
    mapped_update map (if is_empty xs then bitops_clr q map else map) que q xs old (λ p.
      elim (Bool-cases (is_empty xs)) [
        | inl e ↦ rw e (isset_lem q p map).1
        | inr e ↦ rw e (elim (ℕ_discrete p q) [
          | yes same ↦
              let t : (p == q) ≡ true = ground arith in
              rw (t, same) (old q inside ∙ rw (kept e) refl)
          | no other ↦ let f : (p == q) ≡ false = ground arith in rw f refl
        ])
      ])
  where
    kept : is_empty xs ≡ false → is_empty (que q) ≡ false
    kept e = elim (Bool-cases (is_empty (que q))) [
      | inl h ↦ let no = full h in absurd (cc)
      | inr h ↦ h
    ]
