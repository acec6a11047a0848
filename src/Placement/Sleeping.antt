-- ===== src/Placement/Sleeping.antt =====
-- `time_sleep` and `thread_exit` in the abstract view.
use oskernel_riscv.Base.{
  ℕ, ◌+◌, ◌≡◌, refl, sym, ap, ◌∙◌, subst, ◌≢◌, true, false, Option, some, [], ◌∷◌, ◌++◌, arith,
  ◌==◌, if◌then◌else◌, ◌>>=◌,
}
use oskernel_riscv.State.{
  thread_dump_magic_number, Kernel, Resume, slept, finished, update, put_thread, Sem,
  thread_dump_magic_number, dec64, is_thread_valid, is_finished, ready_to_run, set_thread_state,
  set_time_for_waking_up, set_finished,
}
use oskernel_riscv.Queue.{insert_sorted}
use oskernel_riscv.Queue.Count.{count, count-insert_loop}
use oskernel_riscv.Scheduler.{exit, dispatch, retire, delete_thread, disable_thread, free}
use oskernel_riscv.Semaphore.{reschedule, resume, insert_asleep, smaller_sleep_time}
use oskernel_riscv.Semaphore.Wake.{Alive}
use oskernel_riscv.Time.{fall_asleep, put_running_thread_to_sleep}
use oskernel_riscv.Placement.{Place, no_thread, in_line, in_bed, PlacedOn, Placed}
use oskernel_riscv.Placement.Moves.{Alike, Placed-move}
use oskernel_riscv.Placement.Reschedule.{
  still_in_line, switched_away, Switch, rebased, current-At, reschedule-Switch,
}

insert_asleep-count :
    (p q : ℕ) (k : Kernel)
    → p ≢ 0
    → count q (insert_asleep p k).list_asleep ≡ count q k.list_asleep + (if p == q then 1 else 0)
unfolding insert_asleep insert_sorted
insert_asleep-count p q k nz =
    let real : (p == 0) ≡ false = ground arith in
    rw real (count-insert_loop (smaller_sleep_time k) q p k.list_asleep)

-- A finished thread that is regarded as running is deleted: its stack and the object are given back.
abbrev deleted : ℕ → Kernel → Kernel
deleted p k = free p (
    free (k.threads p).stack
      (record (put_thread k p (record (k.threads p) {
        my_magic_number = thread_dump_magic_number;
        thread_state = finished;
      })) { cpu_time = 0 }))

retire-finished :
    (p : ℕ) (k : Kernel) → is_thread_valid k p ≡ true → retire p (set_finished p k) ≡ deleted p k
unfolding retire set_finished delete_thread disable_thread is_finished is_thread_valid ready_to_run
retire-finished p k v = ground arith

module _ (k : Kernel) (places : ℕ → Place) (all : Placed k places) (nz : k.current ≢ 0) where
  fall_asleep-bed :
      (time q : ℕ)
      → count q (fall_asleep k.current time k).list_asleep
        ≡ count q k.list_asleep + (if k.current == q then 1 else 0)
  unfolding fall_asleep set_thread_state set_time_for_waking_up
  fall_asleep-bed time q = insert_asleep-count k.current q _ nz ∙ ground arith

  fall_asleep-Placed :
      (time : ℕ) → PlacedOn 0 (fall_asleep k.current time k) (update places k.current in_bed)
  unfolding fall_asleep set_thread_state set_time_for_waking_up insert_asleep is_finished
      is_thread_valid
  fall_asleep-Placed time =
      let p = k.current in
      let a = current-At k places all nz in
      Placed-move p 0 k (fall_asleep p time k) places p in_bed all
        (record {
          seated = refl;
          lined = ground (arith, a.lined, a.fits.0.1);
          bedded = ground (arith, a.bedded, fall_asleep-bed time p);
          held = λ t. ground (arith, a.held t, a.fits.0.1);
          fits = ((nz, ground (arith, a.fits.0.1)), ground (arith, a.fits));
        })
        (λ q ne. record {
          seat_same = ground (arith, ne);
          line_same = ground (arith, a.fits.0.1);
          bed_same = ground (arith, ne, fall_asleep-bed time q);
          held_same = λ t. ground (arith, ne, a.fits.0.1);
          alike = ground (arith, ne, a.fits.0.1);
        })

  fall_asleep-away :
      (time : ℕ)
      → let k' = fall_asleep k.current time k in
        (k'.current ≡ k.current)
        × (k'.queue_threads ≡ k.queue_threads)
        × (k'.freed ≡ k.freed)
        × Alive k' k.current
        × (ready_to_run k' k.current ≡ false)
  unfolding fall_asleep set_thread_state set_time_for_waking_up insert_asleep is_finished
      is_thread_valid ready_to_run
  fall_asleep-away time =
      let a = current-At k places all nz in
      (
        ground (arith, a.fits.0.1),
        ground (arith, a.fits.0.1),
        ground (arith, a.fits.0.1),
        (nz, ground (arith, a.fits.0.1)),
        ground (arith, a.fits.0.1),
      )

  -- `time_sleep`, of a kernel in which some other thread is in line: the running thread joins the sleepers
  -- and the thread at the front of the line runs.
  pub sleep-Switch :
      (time i : ℕ)
      → places i ≡ in_line
      → Switch
          (put_running_thread_to_sleep time k)
          k.queue_threads
          k.freed
          (update places k.current in_bed)
  unfolding put_running_thread_to_sleep is_finished
  sleep-Switch time i at =
      let a = current-At k places all nz in
      let valid : is_thread_valid k k.current ≡ true = ground (arith, a.fits.0.1) in
      let (cur, line, gone, alive, away) = fall_asleep-away time in
      rw valid (
        switched_away k places all nz slept i in_bed (fall_asleep k.current time k) at
          (fall_asleep-Placed time) cur line gone alive away)

  -- The parent has one child less; nothing else has changed.
  childless : Kernel
  childless =
      let parent = (k.threads k.current).parent_thread in
      if parent == 0
      then k
      else put_thread k parent
          (record (k.threads parent) { num_of_children = dec64 (k.threads parent).num_of_children })

  childless-same :
      (childless.current ≡ k.current)
      × (childless.queue_threads ≡ k.queue_threads)
      × (childless.freed ≡ k.freed)
      × (childless.list_asleep ≡ k.list_asleep)
      × (childless.sems ≡ k.sems)
      × ((q : ℕ) → Alike (k.threads q) (childless.threads q))
      × ((q : ℕ) → (childless.threads q).stack ≡ (k.threads q).stack)
  unfolding childless
  childless-same = (
    ground arith,
    ground arith,
    ground arith,
    ground arith,
    ground arith,
    λ q. ground arith,
    λ q. ground arith,
  )

  gone : Kernel
  gone = deleted k.current childless

  gone-rest :
      (gone.queue_threads ≡ k.queue_threads)
      × (gone.freed ≡ (k.freed ++ (k.threads k.current).stack ∷ []) ++ k.current ∷ [])
      × (gone.list_asleep ≡ k.list_asleep)
      × (gone.sems ≡ k.sems)
      × (is_thread_valid gone k.current ≡ false)
      × ((q : ℕ) → q ≢ k.current → Alike (k.threads q) (gone.threads q))
  unfolding gone is_thread_valid
  gone-rest =
      let (cur, line, freed, bed, sems, alike, stack) = childless-same in
      (
        line,
        ground (arith, freed, stack k.current),
        bed,
        sems,
        ground arith,
        λ q ne. ground (arith, alike q, ne),
      )

  gone-Placed : PlacedOn 0 gone (update places k.current no_thread)
  gone-Placed =
      let p = k.current in
      let a = current-At k places all nz in
      let (line, freed, bed, sems, dead, alike) = gone-rest in
      Placed-move p 0 k gone places p no_thread all
        (record {
          seated = refl;
          lined = ap (count p) line ∙ a.lined;
          bedded = ap (count p) bed ∙ a.bedded;
          held = λ s. ap (λ (f : ℕ → Sem). count p (f s).queue_blocked) sems ∙ a.held s;
          fits = dead;
        })
        (λ q ne. record {
          seat_same = ground (arith, ne);
          line_same = ap (count q) line;
          bed_same = ap (count q) bed;
          held_same = λ s. ap (λ (f : ℕ → Sem). count q (f s).queue_blocked) sems;
          alike = alike q ne;
        })

  leaving : Kernel
  leaving = set_finished k.current childless

  leaving-retired : (leaving.current ≡ k.current) × (retire k.current leaving ≡ gone)
  unfolding leaving gone set_finished is_finished is_thread_valid
  leaving-retired =
      let a = current-At k places all nz in
      let (cur, line, freed, bed, sems, alike, stack) = childless-same in
      let valid : is_thread_valid childless k.current ≡ true =
        ground (arith, a.fits.0.1, alike k.current) in
      (ground (arith, cur), retire-finished k.current childless valid)

  exit-leaving : (c : Resume) → exit c k ≡ dispatch c leaving
  unfolding exit leaving childless
  exit-leaving c = ap (λ (p : ℕ). dispatch c (set_finished p childless)) childless-same.0

  -- `thread_exit` is a switch of a kernel with the same semaphores.
  pub exit-reschedule :
      (c : Resume)
      → (j : Kernel) × ((exit c k >>= λ k'. some (resume k')) ≡ reschedule c j) × (j.sems ≡ k.sems)
  unfolding reschedule leaving set_finished
  exit-reschedule c =
      let (cur, line, freed, bed, sems, alike, stack) = childless-same in
      (
        leaving,
        ap (λ (o : Option Kernel). o >>= λ k'. some (resume k')) (exit-leaving c),
        ground (arith, sems),
      )

  -- `thread_exit`, in a kernel that has every thread at its place, one of them running and another in the
  -- ready queue: the running thread is gone, its stack and then its object are given back, the
  -- thread at the front of the ready queue runs, and all others stay.
  pub exit-Switch :
      (c : Resume) (i : ℕ)
      → places i ≡ in_line
      → Switch
          (exit c k >>= λ k'. some (resume k'))
          k.queue_threads
          ((k.freed ++ (k.threads k.current).stack ∷ []) ++ k.current ∷ [])
          (update places k.current no_thread)
  unfolding reschedule
  exit-Switch c i at =
      let (cur, e) = leaving-retired in
      let same : retire leaving.current leaving ≡ gone = ap (λ (p : ℕ). retire p leaving) cur ∙ e in
      let places' = update places k.current no_thread in
      let sw =
        reschedule-Switch c leaving places' i
          (subst (λ j. PlacedOn 0 j places') (sym same) gone-Placed)
          (still_in_line k places all nz i no_thread at) in
      let based =
        rebased (reschedule c leaving) (ap (λ (j : Kernel). j.queue_threads) same ∙ gone-rest.0)
          (ap (λ (j : Kernel). j.freed) same ∙ gone-rest.1) sw in
      subst
        (λ o.
          Switch (o >>= λ k'. some (resume k')) k.queue_threads
            ((k.freed ++ (k.threads k.current).stack ∷ []) ++ k.current ∷ []) places')
        (sym (exit-leaving c)) based
