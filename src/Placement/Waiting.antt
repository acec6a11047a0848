-- ===== src/Placement/Waiting.antt =====
-- `wait` and `timedWait` in the abstract view.
use oskernel_riscv.Base.{
  ◌^◌, ◌%◌, ℕ, ◌+◌, ◌≡◌, refl, ap, ◌∙◌, ◌≢◌, ◌⊎◌, inl, inr, true, false, some, List, arith, ◌==◌,
  if◌then◌else◌, Bool-cases,
}
use oskernel_riscv.Base.Int.{ℤ, dec, is_neg}
use oskernel_riscv.State.{
  Kernel, Resume, timed_blocked, timed_waiting, update, is_thread_valid, is_finished, ready_to_run,
  set_my_sem, set_threads_sem_status, set_time_for_waking_up,
}
use oskernel_riscv.Queue.{add_last, insert_sorted}
use oskernel_riscv.Queue.Count.{count, count-add_last, count-insert_loop}
use oskernel_riscv.Semaphore.{
  set_queue, Reply, returns, set_val, block, timed_block, wait_as, timed_wait, insert_ordered,
  insert_asleep, smaller_sleep_time, sem_didnt_wait,
}
use oskernel_riscv.Semaphore.Wake.{Alive}
use oskernel_riscv.Placement.{Place, in_line, held_by, held_until, PlacedOn, Placed}
use oskernel_riscv.Placement.Moves.{Placed-move, Placed-stay}
use oskernel_riscv.Placement.Reschedule.{Switch, switched_away, current-At}

-- A change of a semaphore's value moves nobody.
pub set_val-Placed :
    (s : ℕ) (v : ℤ) (c : ℕ) (k : Kernel) (places : ℕ → Place)
    → PlacedOn c k places
    → PlacedOn c (set_val s v k) places
set_val-Placed s v c k places all = Placed-stay c c k (set_val s v k) places all (λ q. record {
  seat_same = refl;
  line_same = refl;
  bed_same = refl;
  held_same = λ t. ground arith;
  alike = (refl, refl, refl, refl);
})

set_my_sem-asleep : (s p : ℕ) (k : Kernel) → (set_my_sem s p k).list_asleep ≡ k.list_asleep
unfolding set_my_sem
set_my_sem-asleep s p k = ground arith

pub insert_ordered-count :
    (p q : ℕ) (k : Kernel)
    → p ≢ 0
    → is_thread_valid k p ≡ true
    → count q (insert_ordered p k).list_asleep ≡ count q k.list_asleep + (if p == q then 1 else 0)
unfolding insert_ordered insert_asleep insert_sorted
insert_ordered-count p q k nz valid =
    let real : (p == 0) ≡ false = ground arith in
    rw (valid, real) (count-insert_loop (smaller_sleep_time k) q p k.list_asleep)

module _ (s : ℕ) (k : Kernel) (places : ℕ → Place) (all : Placed k places) (nz : k.current ≢ 0)
    (real : s ≢ 0) where
  block-Placed :
      (v : ℤ) → PlacedOn 0 (block s (set_val s v k)) (update places k.current (held_by s))
  unfolding block set_my_sem set_threads_sem_status is_finished is_thread_valid
  block-Placed v =
      let p = k.current in
      let a = current-At k places all nz in
      Placed-move p 0 k (block s (set_val s v k)) places p (held_by s) all
        (record {
          seated = refl;
          lined = ground (arith, a.lined, a.fits.0.1);
          bedded = ground (arith, a.bedded, a.fits.0.1);
          held = λ t.
              ground (arith, a.held t, a.fits.0.1, count-add_last p p (k.sems s).queue_blocked);
          fits = (
            (nz, ground (arith, a.fits.0.1)),
            ground (arith, a.fits.0.1),
            ground (arith, a.fits.0.1),
            real,
          );
        })
        (λ q ne. record {
          seat_same = ground (arith, ne);
          line_same = ground (arith, a.fits.0.1);
          bed_same = ground (arith, a.fits.0.1);
          held_same =
              λ t. ground (arith, ne, a.fits.0.1, count-add_last q p (k.sems s).queue_blocked);
          alike = ground (arith, ne, a.fits.0.1);
        })

  block-away :
      (v : ℤ)
      → let k' = block s (set_val s v k) in
        (k'.current ≡ k.current)
        × (k'.queue_threads ≡ k.queue_threads)
        × (k'.freed ≡ k.freed)
        × Alive k' k.current
        × (ready_to_run k' k.current ≡ false)
  unfolding block set_my_sem set_threads_sem_status is_finished is_thread_valid ready_to_run
  block-away v =
      let a = current-At k places all nz in
      (
        ground (arith, a.fits.0.1),
        ground (arith, a.fits.0.1),
        ground (arith, a.fits.0.1),
        (nz, ground (arith, a.fits.0.1)),
        ground (arith, a.fits.0.1),
      )

  -- The kernel in which the thread joins the sleepers.
  abbrev timed : ℤ → ℕ → Kernel
  timed v time =
      let k₁ = set_val s v k in
      let k₂ =
        set_time_for_waking_up ((time + k₁.sys_time) % 2 ^ 64) k₁.current
          (set_threads_sem_status timed_waiting k₁.current k₁) in
      set_queue s (add_last (k₂.sems s).queue_blocked k₁.current) k₂

  timed-rest :
      (v : ℤ) (time : ℕ)
      → (is_thread_valid (timed v time) k.current ≡ true)
        × ((timed v time).list_asleep ≡ k.list_asleep)
  unfolding set_threads_sem_status set_time_for_waking_up is_finished is_thread_valid
  timed-rest v time =
      let a = current-At k places all nz in (ground (arith, a.fits.0.1), ground (arith, a.fits.0.1))

  timed_block-bed :
      (v : ℤ) (time q : ℕ)
      → count q (timed_block s time (set_val s v k)).list_asleep
        ≡ count q k.list_asleep + (if k.current == q then 1 else 0)
  unfolding timed_block
  timed_block-bed v time q =
      let (valid, same) = timed-rest v time in
      ap (count q) (set_my_sem-asleep s k.current _)
      ∙ (insert_ordered-count k.current q (timed v time) nz valid
          ∙ ap (λ (l : List ℕ). count q l + (if k.current == q then 1 else 0)) same)

  timed_block-Placed :
      (v : ℤ) (time : ℕ)
      → PlacedOn 0 (timed_block s time (set_val s v k)) (update places k.current (held_until s))
  unfolding timed_block set_my_sem set_threads_sem_status set_time_for_waking_up insert_ordered
      insert_asleep insert_sorted is_finished is_thread_valid
  timed_block-Placed v time =
      let p = k.current in
      let a = current-At k places all nz in
      Placed-move p 0 k (timed_block s time (set_val s v k)) places p (held_until s) all
        (record {
          seated = refl;
          lined = ground (arith, a.lined, a.fits.0.1);
          bedded = ground (arith, a.bedded, timed_block-bed v time p);
          held = λ t.
              ground (arith, a.held t, a.fits.0.1, count-add_last p p (k.sems s).queue_blocked);
          fits = (
            (nz, ground (arith, a.fits.0.1)),
            ground (arith, a.fits.0.1),
            ground (arith, a.fits.0.1),
            real,
          );
        })
        (λ q ne. record {
          seat_same = ground (arith, ne);
          line_same = ground (arith, a.fits.0.1);
          bed_same = ground (arith, ne, timed_block-bed v time q);
          held_same =
              λ t. ground (arith, ne, a.fits.0.1, count-add_last q p (k.sems s).queue_blocked);
          alike = ground (arith, ne, a.fits.0.1);
        })

  timed_block-away :
      (v : ℤ) (time : ℕ)
      → let k' = timed_block s time (set_val s v k) in
        (k'.current ≡ k.current)
        × (k'.queue_threads ≡ k.queue_threads)
        × (k'.freed ≡ k.freed)
        × Alive k' k.current
        × (ready_to_run k' k.current ≡ false)
  unfolding timed_block set_my_sem set_threads_sem_status set_time_for_waking_up insert_ordered
      insert_asleep is_finished is_thread_valid ready_to_run
  timed_block-away v time =
      let a = current-At k places all nz in
      (
        ground (arith, a.fits.0.1),
        ground (arith, a.fits.0.1),
        ground (arith, a.fits.0.1),
        (nz, ground (arith, a.fits.0.1)),
        ground (arith, a.fits.0.1),
      )

  -- `wait`, in a kernel that has every thread at its place, one of them running and another in the ready
  -- queue: a value that stays at 0 or above passes and moves nobody; otherwise the running thread is
  -- held by the semaphore, the thread at the front of the ready queue runs, and all others stay.
  pub wait_as-Switch :
      (c : Resume) (r : Reply) (i : ℕ)
      → places i ≡ in_line
      → ((is_neg (dec (k.sems s).val) ≡ false)
          × (wait_as c r s k ≡ some (r, set_val s (dec (k.sems s).val) k))
          × Placed (set_val s (dec (k.sems s).val) k) places)
        ⊎ ((is_neg (dec (k.sems s).val) ≡ true)
            × Switch
                (wait_as c r s k)
                k.queue_threads
                k.freed
                (update places k.current (held_by s)))
  unfolding wait_as
  wait_as-Switch c r i at = elim (Bool-cases (is_neg (dec (k.sems s).val))) [
    | inr enough ↦
        inl (enough, rw enough refl, set_val-Placed s (dec (k.sems s).val) k.current k places all)
    | inl neg ↦
        let v = dec (k.sems s).val in
        let (cur, line, gone, alive, away) = block-away v in
        inr (
          neg,
          rw neg (
              switched_away k places all nz c i (held_by s) (block s (set_val s v k)) at
                (block-Placed v) cur line gone alive away),
        )
  ]

  -- `timedWait` likewise: the running thread that does not pass is held until its time is over.
  pub timed_wait-Switch :
      (time i : ℕ)
      → places i ≡ in_line
      → ((is_neg (dec (k.sems s).val) ≡ false)
          × (timed_wait s time k ≡ some (returns sem_didnt_wait, set_val s (dec (k.sems s).val) k))
          × Placed (set_val s (dec (k.sems s).val) k) places)
        ⊎ ((is_neg (dec (k.sems s).val) ≡ true)
            × Switch
                (timed_wait s time k)
                k.queue_threads
                k.freed
                (update places k.current (held_until s)))
  unfolding timed_wait
  timed_wait-Switch time i at = elim (Bool-cases (is_neg (dec (k.sems s).val))) [
    | inr enough ↦
        inl (enough, rw enough refl, set_val-Placed s (dec (k.sems s).val) k.current k places all)
    | inl neg ↦
        let v = dec (k.sems s).val in
        let (cur, line, gone, alive, away) = timed_block-away v time in
        inr (
          neg,
          rw neg (
              switched_away k places all nz (timed_blocked s) i (held_until s)
                (timed_block s time (set_val s v k)) at (timed_block-Placed v time) cur line gone
                alive away),
        )
  ]
