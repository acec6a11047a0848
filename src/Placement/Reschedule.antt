-- ===== src/Placement/Reschedule.antt =====
-- Giving the processor up: the thread that yields goes to the end of the line, one that blocks stays
-- where it was put, one that exits is gone; and another thread runs.
use oskernel_riscv.Base.{
  ℕ, ◌≡◌, refl, sym, ap, ◌∙◌, subst, ◌≢◌, false, Option, some, List, ◌∷◌, arith,
}
use oskernel_riscv.State.{Kernel, Resume, update, is_thread_valid, is_finished, ready_to_run}
use oskernel_riscv.Queue.{add_last}
use oskernel_riscv.Queue.Count.{count-add_last}
use oskernel_riscv.Scheduler.{put, retire, dispatch}
use oskernel_riscv.Semaphore.{Reply, resume, reschedule}
use oskernel_riscv.Semaphore.Wake.{Alive}
use oskernel_riscv.Placement.{
  Place, no_thread, on_cpu, in_line, in_bed, held_by, held_until, on_cpu_count, seat, At, PlacedOn,
  Placed,
}
use oskernel_riscv.Placement.Moves.{Placed-move, Placed-stay}
use oskernel_riscv.Placement.Switch.{elect-Elected, resume_as-Resumed, resume-Placed}

-- The result `r` of giving the processor up, with the ready queue `line`, the pointers `freed` that were
-- given back, and the threads at `places`: the thread at the front of the line runs, the others stay,
-- and nothing more is given back.
pub record Switch (r : Option (Reply × Kernel)) (line freed : List ℕ) (places : ℕ → Place)
    : Type 0 where
  pub next : ℕ
  pub reply : Reply
  pub after : Kernel
  pub ran : r ≡ some (reply, after)
  pub now_runs : after.current ≡ next
  pub was_in_line : places next ≡ in_line
  pub front : line ≡ next ∷ after.queue_threads
  pub frees : after.freed ≡ freed
  pub placed : Placed after (update places next on_cpu)

pub reschedule-Switch :
    (c : Resume) (k : Kernel) (places : ℕ → Place) (i : ℕ)
    → PlacedOn 0 (retire k.current k) places
    → places i ≡ in_line
    → let j = retire k.current k in Switch (reschedule c k) j.queue_threads j.freed places
unfolding reschedule dispatch
reschedule-Switch c k places i all at =
    let (p, k₁, e, cur, was, front, gone, placed) =
      elect-Elected c k.current (retire k.current k) places all i at in
    let seat_of : update places p on_cpu k₁.current ≡ on_cpu = ground (arith, cur) in
    let a : At k₁.current k₁ k₁.current on_cpu =
      subst (At k₁.current k₁ k₁.current) seat_of (placed k₁.current) in
    let r = resume_as-Resumed (k₁.threads k₁.current).context k₁ a.fits.0 a.fits.1 a.fits.2 in
    record {
      next = p;
      reply = (resume k₁).0;
      after = (resume k₁).1;
      ran = rw e refl;
      now_runs = r.cur ∙ cur;
      was_in_line = was;
      front = front ∙ ap (λ (l : List ℕ). p ∷ l) (sym r.line);
      frees = r.frees ∙ gone;
      placed = resume-Placed k₁ (update places p on_cpu) placed seat_of;
    }

pub rebased :
    {l l' f f' : List ℕ} {places : ℕ → Place} (r : Option (Reply × Kernel))
    → l ≡ l'
    → f ≡ f'
    → Switch r l f places
    → Switch r l' f' places
rebased {l} {l'} {f} {f'} {places} r e g sw =
    subst (λ b. Switch r l' b places) g (subst (λ a. Switch r a f places) e sw)

-- The thread on the processor, as its place says.
pub current-on_cpu :
    (k : Kernel) (places : ℕ → Place) → Placed k places → k.current ≢ 0 → places k.current ≡ on_cpu
current-on_cpu k places all nz = seated_on (places k.current) (all k.current).seated
  where
    seated_on : (x : Place) → seat k.current k.current ≡ on_cpu_count x → x ≡ on_cpu
    seated_on no_thread h = absurd (ground arith)
    seated_on on_cpu h = refl
    seated_on in_line h = absurd (ground arith)
    seated_on in_bed h = absurd (ground arith)
    seated_on (held_by s) h = absurd (ground arith)
    seated_on (held_until s) h = absurd (ground arith)

pub current-At :
    (k : Kernel) (places : ℕ → Place)
    → Placed k places
    → k.current ≢ 0
    → At k.current k k.current on_cpu
current-At k places all nz =
    subst (At k.current k k.current) (current-on_cpu k places all nz) (all k.current)

module _ (k : Kernel) (places : ℕ → Place) where
  retire-yield :
      Placed k places
      → k.current ≢ 0
      → PlacedOn 0 (retire k.current k) (update places k.current in_line)
  unfolding retire put is_finished is_thread_valid ready_to_run
  retire-yield all nz =
      let p = k.current in
      let a = current-At k places all nz in
      Placed-move p 0 k (retire p k) places p in_line all
        (record {
          seated = refl;
          lined = ground (arith, a.lined, a.fits.2, a.fits.0.1, count-add_last p p k.queue_threads);
          bedded = ground (arith, a.bedded, a.fits.2, a.fits.0.1);
          held = λ s. ground (arith, a.held s, a.fits.2, a.fits.0.1);
          fits = (
            (nz, ground (arith, a.fits.2, a.fits.0.1)),
            ground (arith, a.fits.1, a.fits.2, a.fits.0.1),
          );
        })
        (λ q ne. record {
          seat_same = ground (arith, ne);
          line_same = ground (arith, ne, a.fits.2, a.fits.0.1, count-add_last q p k.queue_threads);
          bed_same = ground (arith, a.fits.2, a.fits.0.1);
          held_same = λ s. ground (arith, a.fits.2, a.fits.0.1);
          alike = ground (arith, ne, a.fits.2, a.fits.0.1);
        })

  retire-away :
      PlacedOn 0 k places
      → Alive k k.current
      → ready_to_run k k.current ≡ false
      → PlacedOn 0 (retire k.current k) places
  unfolding retire is_finished is_thread_valid ready_to_run
  retire-away all (nz, a) away =
      let same : retire k.current k ≡ record k { cpu_time = 0 } = ground arith in
      subst (λ j. PlacedOn 0 j places) (sym same)
        (Placed-stay 0 0 k (record k { cpu_time = 0 }) places all
          (λ q. record {
            seat_same = refl;
            line_same = refl;
            bed_same = refl;
            held_same = λ s. refl;
            alike = (refl, refl, refl, refl);
          }))

  retire-queue_away :
      Alive k k.current
      → ready_to_run k k.current ≡ false
      → ((retire k.current k).queue_threads ≡ k.queue_threads)
        × ((retire k.current k).freed ≡ k.freed)
  unfolding retire is_finished is_thread_valid ready_to_run
  retire-queue_away (nz, a) away = (ground arith, ground arith)

  retire-queue_yield :
      Placed k places
      → k.current ≢ 0
      → ((retire k.current k).queue_threads ≡ add_last k.queue_threads k.current)
        × ((retire k.current k).freed ≡ k.freed)
  unfolding retire put is_finished is_thread_valid ready_to_run
  retire-queue_yield all nz =
      let a = current-At k places all nz in
      (ground (arith, a.fits.2, a.fits.0.1), ground (arith, a.fits.2, a.fits.0.1))

  -- A running thread that can go on gives the processor up, in a system call or at the end of its time: it
  -- goes to the end of the ready queue, and the thread at the front of that queue, perhaps itself, runs.
  pub yield-Switch :
      (c : Resume)
      → Placed k places
      → k.current ≢ 0
      → Switch
          (reschedule c k)
          (add_last k.queue_threads k.current)
          k.freed
          (update places k.current in_line)
  yield-Switch c all nz =
      let (line, gone) = retire-queue_yield all nz in
      rebased (reschedule c k) line gone (
        reschedule-Switch c k (update places k.current in_line) k.current (retire-yield all nz)
          (ground arith))

  -- A thread that was put elsewhere gives the processor up.
  pub away-Switch :
      (c : Resume) (i : ℕ)
      → PlacedOn 0 k places
      → Alive k k.current
      → ready_to_run k k.current ≡ false
      → places i ≡ in_line
      → Switch (reschedule c k) k.queue_threads k.freed places
  away-Switch c i all alive away at =
      let (line, gone) = retire-queue_away alive away in
      rebased (reschedule c k) line gone
        (reschedule-Switch c k places i (retire-away all alive away) at)

module _ (k : Kernel) (places : ℕ → Place) (all : Placed k places) (nz : k.current ≢ 0) where
  -- Someone else in line stays in line when the running thread is put somewhere.
  pub still_in_line :
      (i : ℕ) (x : Place) → places i ≡ in_line → update places k.current x i ≡ in_line
  still_in_line i x at = ground (arith, at, current-on_cpu k places all nz)

  -- The switch behind a change that put the running thread at `x`.
  pub switched_away :
      (c : Resume) (i : ℕ) (x : Place) (j : Kernel)
      → places i ≡ in_line
      → PlacedOn 0 j (update places k.current x)
      → j.current ≡ k.current
      → j.queue_threads ≡ k.queue_threads
      → j.freed ≡ k.freed
      → Alive j k.current
      → ready_to_run j k.current ≡ false
      → Switch (reschedule c j) k.queue_threads k.freed (update places k.current x)
  switched_away c i x j at placed cur line gone alive away = rebased (reschedule c j) line gone (
      away-Switch j (update places k.current x) c i placed (subst (Alive j) (sym cur) alive)
        (subst (λ q. ready_to_run j q ≡ false) (sym cur) away) (still_in_line i x at))
