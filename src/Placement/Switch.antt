-- ===== src/Placement/Switch.antt =====
-- `dispatch` in the abstract view: the thread at the front of the ready queue takes the processor.
use oskernel_riscv.Base.{
  ℕ, ◌<◌, ◌≡◌, refl, sym, ap, ◌∙◌, subst, ◌≢◌, true, false, some, List, [], ◌∷◌, arith,
}
use oskernel_riscv.State.{
  Kernel, Resume, started, yielded, preempted, exited, slept, blocked, getting, timed_blocked,
  running, update, is_wait, is_thread_valid, is_finished, ready_to_run, set_my_sem,
  set_time_for_waking_up, set_thread_state, set_threads_sem_status,
}
use oskernel_riscv.Queue.{foreach_while}
use oskernel_riscv.Queue.Count.{count}
use oskernel_riscv.Scheduler.{get, thread_dead, delete_thread_in_dispatch, bury, elect}
use oskernel_riscv.Semaphore.{resume_as, resume, generate_wait_responses}
use oskernel_riscv.Semaphore.Wake.{Alive}
use oskernel_riscv.Placement.{
  Place, no_thread, on_cpu, in_line, in_bed, held_by, held_until, line_count, At, PlacedOn, Placed,
}
use oskernel_riscv.Placement.Moves.{Placed-move, Placed-self}

pub line-in_line : (x : Place) → 0 < line_count x → x ≡ in_line
line-in_line no_thread h = absurd (omega arith)
line-in_line on_cpu h = absurd (omega arith)
line-in_line in_line h = refl
line-in_line in_bed h = absurd (omega arith)
line-in_line (held_by s) h = absurd (omega arith)
line-in_line (held_until s) h = absurd (omega arith)

-- Whoever stands in the ready queue is in line, and alive.
pub queued-in_line :
    (c : ℕ) (k : Kernel) (places : ℕ → Place) (p : ℕ)
    → PlacedOn c k places
    → 0 < count p k.queue_threads
    → places p ≡ in_line
queued-in_line c k places p all h = line-in_line (places p) (omega (arith, (all p).lined, h))

pub in_line-fits :
    (c : ℕ) (k : Kernel) (places : ℕ → Place) (p : ℕ)
    → PlacedOn c k places
    → places p ≡ in_line
    → At c k p in_line
in_line-fits c k places p all e = subst (At c k p) e (all p)

Alive-dead : (k : Kernel) (p : ℕ) → Alive k p → thread_dead k p ≡ false
unfolding thread_dead is_finished is_thread_valid
Alive-dead k p (nz, a) = ground arith

-- No thread at the front of the queue is dead, so none is buried.
pub bury-nobody : (k : Kernel) (places : ℕ → Place) → PlacedOn 0 k places → bury k ≡ k
unfolding bury foreach_while
bury-nobody k places all = front k.queue_threads refl
  where
    front :
        (xs : List ℕ)
        → k.queue_threads ≡ xs
        → foreach_while thread_dead delete_thread_in_dispatch xs k ≡ k
    front [] e = refl
    front (x ∷ xs) e =
        let at =
          in_line-fits 0 k places x all (queued-in_line 0 k places x all (ground (arith, e))) in
        rw (Alive-dead k x at.fits.0)

-- The thread `p` at the front takes the processor.
abbrev pub Elected : Resume → ℕ → Kernel → (ℕ → Place) → Type 0
Elected c old k places =
    (p : ℕ) × (k' : Kernel) × (elect c old (bury k) ≡ some k')
    × (k'.current ≡ p)
    × (places p ≡ in_line)
    × (k.queue_threads ≡ p ∷ k'.queue_threads)
    × (k'.freed ≡ k.freed)
    × Placed k' (update places p on_cpu)

module _ (c : Resume) (old : ℕ) (k : Kernel) (places : ℕ → Place) (all : PlacedOn 0 k places) where
  seated_now : ℕ → List ℕ → Kernel
  seated_now p rest = record k {
    queue_threads = rest;
    current = p;
    threads =
        let ts = update k.threads p (record (k.threads p) { thread_state = running }) in
        update ts old (record (ts old) { context = c });
  }

  elect-front :
      (p : ℕ) (rest : List ℕ)
      → k.queue_threads ≡ p ∷ rest
      → p ≢ 0
      → elect c old k ≡ some (seated_now p rest)
  unfolding elect get seated_now
  elect-front p rest e nz = ground arith

  seated-Placed :
      (p : ℕ) (rest : List ℕ)
      → k.queue_threads ≡ p ∷ rest
      → places p ≡ in_line
      → PlacedOn p (seated_now p rest) (update places p on_cpu)
  unfolding seated_now is_finished is_thread_valid ready_to_run
  seated-Placed p rest e at =
      let a = in_line-fits 0 k places p all at in
      Placed-move 0 p k (seated_now p rest) places p on_cpu all
        (record {
          seated = ground (arith, a.fits.0.0);
          lined = ground (arith, a.lined, e);
          bedded = a.bedded;
          held = a.held;
          fits = ((a.fits.0.0, ground (arith, a.fits.0.1)), ground (arith, a.fits.1), ground arith);
        })
        (λ q ne. record {
          seat_same = ground (arith, ne);
          line_same = ground (arith, e, ne);
          bed_same = refl;
          held_same = λ s. refl;
          alike = ground (arith, ne);
        })

  -- Where some thread is in line, the switch finds one.
  pub elect-Elected : (i : ℕ) → places i ≡ in_line → Elected c old k places
  unfolding seated_now
  elect-Elected i at = front k.queue_threads refl
    where
      front : (xs : List ℕ) → k.queue_threads ≡ xs → Elected c old k places
      front [] e = absurd (ground (arith, (in_line-fits 0 k places i all at).lined, ap (count i) e))
      front (p ∷ rest) e =
          let first = queued-in_line 0 k places p all (ground (arith, e)) in
          let real = (in_line-fits 0 k places p all first).fits.0.0 in
          (
            p,
            seated_now p rest,
            subst (λ j. elect c old j ≡ some (seated_now p rest)) (sym (bury-nobody k places all))
                (elect-front p rest e real),
            refl,
            first,
            e,
            refl,
            seated-Placed p rest e first,
          )

-- What the code behind the switch leaves alone, and what it says of the running thread.
pub record Resumed (k k' : Kernel) : Type 0 where
  pub cur : k'.current ≡ k.current
  pub line : k'.queue_threads ≡ k.queue_threads
  pub bed : k'.list_asleep ≡ k.list_asleep
  pub frees : k'.freed ≡ k.freed
  pub queues : (s : ℕ) → (k'.sems s).queue_blocked ≡ (k.sems s).queue_blocked
  pub others : (q : ℕ) → q ≢ k.current → k'.threads q ≡ k.threads q
  pub own :
      Alive k' k.current
      × (is_wait (k'.threads k.current).sem_status ≡ false)
      × (ready_to_run k' k.current ≡ true)

Resumed-same :
    (k : Kernel)
    → Alive k k.current
      × (is_wait (k.threads k.current).sem_status ≡ false)
      × (ready_to_run k k.current ≡ true)
    → Resumed k k
Resumed-same k own = record {
  cur = refl;
  line = refl;
  bed = refl;
  frees = refl;
  queues = λ s. refl;
  others = λ q ne. refl;
  own = own;
}

pub resume_as-Resumed :
    (c : Resume) (k : Kernel)
    → Alive k k.current
    → is_wait (k.threads k.current).sem_status ≡ false
    → ready_to_run k k.current ≡ true
    → Resumed k (resume_as c k).1
unfolding resume_as generate_wait_responses set_my_sem set_time_for_waking_up set_thread_state
    set_threads_sem_status is_finished is_thread_valid ready_to_run
resume_as-Resumed started k (nz, a) w r = Resumed-same k ((nz, a), w, r)
resume_as-Resumed yielded k (nz, a) w r = Resumed-same k ((nz, a), w, r)
resume_as-Resumed preempted k (nz, a) w r = Resumed-same k ((nz, a), w, r)
resume_as-Resumed exited k (nz, a) w r = Resumed-same k ((nz, a), w, r)
resume_as-Resumed slept k (nz, a) w r = record {
  cur = ground arith;
  line = ground arith;
  bed = ground arith;
  frees = ground arith;
  queues = λ s. ground arith;
  others = λ q ne. ground arith;
  own = ((nz, ground arith), ground arith, ground arith);
}
resume_as-Resumed (blocked t) k (nz, a) w r = record {
  cur = ground arith;
  line = ground arith;
  bed = ground arith;
  frees = ground arith;
  queues = λ s. ground arith;
  others = λ q ne. ground arith;
  own = ((nz, ground arith), ground arith, ground arith);
}
resume_as-Resumed (getting t) k (nz, a) w r = record {
  cur = ground arith;
  line = ground arith;
  bed = ground arith;
  frees = ground arith;
  queues = λ s. ground arith;
  others = λ q ne. ground arith;
  own = ((nz, ground arith), ground arith, ground arith);
}
resume_as-Resumed (timed_blocked t) k (nz, a) w r = record {
  cur = ground arith;
  line = ground arith;
  bed = ground arith;
  frees = ground arith;
  queues = λ s. ground arith;
  others = λ q ne. ground arith;
  own = ((nz, ground arith), ground arith, ground arith);
}

-- The code behind the switch leaves every thread at its place.
pub resume-Placed :
    (k : Kernel) (places : ℕ → Place)
    → Placed k places
    → places k.current ≡ on_cpu
    → Placed (resume k).1 places
resume-Placed k places all at =
    let p = k.current in
    let a : At p k p on_cpu = subst (At p k p) at (all p) in
    let r = resume_as-Resumed (k.threads p).context k a.fits.0 a.fits.1 a.fits.2 in
    subst (λ c. PlacedOn c (resume k).1 places) (sym r.cur)
      (Placed-self p p k (resume k).1 places p all
        (subst (At p (resume k).1 p) (sym at) (record {
          seated = a.seated;
          lined = ap (count p) r.line ∙ a.lined;
          bedded = ap (count p) r.bed ∙ a.bedded;
          held = λ s. ap (count p) (r.queues s) ∙ a.held s;
          fits = r.own;
        }))
        (λ q ne. record {
          seat_same = refl;
          line_same = ap (count q) r.line;
          bed_same = ap (count q) r.bed;
          held_same = λ s. ap (count q) (r.queues s);
          alike = ground (arith, r.others q ne);
        }))
