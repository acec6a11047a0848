-- ===== src/Placement/Rousing.antt =====
-- A sleeper that is roused leaves the list of sleepers, and with a time limit the semaphore too.
use oskernel_riscv.Base.{
  ℕ, ◌≡◌, refl, ap, ◌∙◌, subst, ◌≢◌, ◌⊎◌, inl, inr, true, false, arith, Bool-cases,
}
use oskernel_riscv.State.{
  Kernel, Sem, timed_waiting, timeout, update, is_timed_waiting, is_thread_valid, is_finished,
}
use oskernel_riscv.Queue.{remove_spec}
use oskernel_riscv.Queue.Laws.{remove_spec-has, has}
use oskernel_riscv.Queue.Count.{count, count-add_last, count-remove_spec, count-has, has-count}
use oskernel_riscv.Scheduler.{put}
use oskernel_riscv.Semaphore.{unblocked_by_time}
use oskernel_riscv.Semaphore.Wake.{Alive, roused, roused-thread, roused-rest}
use oskernel_riscv.Semaphore.End.{out_of_time, unblocked_by_time-eq}
use oskernel_riscv.Time.{wake_thread_up}
use oskernel_riscv.Placement.{Place, in_line, in_bed, held_until, At, PlacedOn}
use oskernel_riscv.Placement.Moves.{Placed-move}

module _ (p : ℕ) (c : ℕ) (k : Kernel) (places : ℕ → Place) (all : PlacedOn c k places) where
  -- A wait whose time is over.
  pub timed_out-Placed :
      (s : ℕ)
      → places p ≡ held_until s
      → PlacedOn c (roused timeout p (out_of_time s p k)) (update places p in_line)
  unfolding is_finished is_thread_valid
  timed_out-Placed s at =
      let a : At c k p (held_until s) = subst (At c k p) at (all p) in
      let j = out_of_time s p k in
      let alive : Alive j p = a.fits.0 in
      let th = roused-thread timeout p j alive refl in
      let (sems, line, bed, cur) = roused-rest timeout p j alive refl in
      Placed-move c c k (roused timeout p j) places p in_line all
        (record {
          seated = a.seated;
          lined = ground (arith, ap (count p) line, count-add_last p p k.queue_threads, a.lined);
          bedded =
              ground
                (arith, ap (count p) bed, count-remove_spec p p k.list_asleep a.fits.0.0, a.bedded);
          held = λ t. ground (
            arith,
            ap (λ (f : ℕ → Sem). count p (f t).queue_blocked) sems,
            count-remove_spec p p (k.sems s).queue_blocked a.fits.0.0,
            a.held t,
          );
          fits = ((a.fits.0.0, ground (arith, th p, a.fits.0.1)), ground (arith, th p));
        })
        (λ q ne. record {
          seat_same = refl;
          line_same = ground (arith, ap (count q) line, count-add_last q p k.queue_threads, ne);
          bed_same =
              ground (arith, ap (count q) bed, count-remove_spec q p k.list_asleep a.fits.0.0, ne);
          held_same = λ t. ground (
            arith,
            ap (λ (f : ℕ → Sem). count q (f t).queue_blocked) sems,
            count-remove_spec q p (k.sems s).queue_blocked a.fits.0.0,
            ne,
          );
          alike = ground (arith, th q, ne);
        })

  -- A sleeper.
  unfoldable pub risen : Kernel
  risen = put p (record k { list_asleep = (remove_spec p k.list_asleep).1 })

  pub risen-Placed : places p ≡ in_bed → PlacedOn c risen (update places p in_line)
  unfolding risen put is_finished is_thread_valid
  risen-Placed at =
      let a : At c k p in_bed = subst (At c k p) at (all p) in
      Placed-move c c k risen places p in_line all
        (record {
          seated = a.seated;
          lined = ground (arith, count-add_last p p k.queue_threads, a.lined);
          bedded = ground (arith, count-remove_spec p p k.list_asleep a.fits.0.0, a.bedded);
          held = a.held;
          fits = a.fits;
        })
        (λ q ne. record {
          seat_same = refl;
          line_same = ground (arith, count-add_last q p k.queue_threads, ne);
          bed_same = ground (arith, count-remove_spec q p k.list_asleep a.fits.0.0, ne);
          held_same = λ t. refl;
          alike = (refl, refl, refl, refl);
        })

  -- Who is not among the sleepers is not woken.
  pub wake-nobody :
      is_timed_waiting (k.threads p).sem_status ≡ false
      → count p k.list_asleep ≡ 0
      → p ≢ 0
      → wake_thread_up k p ≡ k
  unfolding wake_thread_up
  wake-nobody t none_in nz =
      let absent : (remove_spec p k.list_asleep).0 ≡ false =
        remove_spec-has p k.list_asleep nz ∙ not_in (Bool-cases (has p k.list_asleep)) in
      ground (arith, absent, t)
    where
      not_in :
          (has p k.list_asleep ≡ true) ⊎ (has p k.list_asleep ≡ false) → has p k.list_asleep ≡ false
      not_in (inl e) = absurd (omega (arith, has-count p k.list_asleep e, none_in))
      not_in (inr e) = e

  pub wake-risen :
      is_timed_waiting (k.threads p).sem_status ≡ false
      → count p k.list_asleep ≡ 1
      → is_thread_valid k p ≡ true
      → p ≢ 0
      → wake_thread_up k p ≡ risen
  unfolding wake_thread_up risen
  wake-risen t one valid nz =
      let found : (remove_spec p k.list_asleep).0 ≡ true =
        remove_spec-has p k.list_asleep nz ∙ count-has p k.list_asleep (omega (arith, one)) in
      ground (arith, found, t, valid)

  pub wake-timed :
      (s : ℕ)
      → (k.threads p).sem_status ≡ timed_waiting
      → (k.threads p).my_sem ≡ s
      → s ≢ 0
      → is_thread_valid k p ≡ true
      → wake_thread_up k p ≡ roused timeout p (out_of_time s p k)
  unfolding wake_thread_up
  wake-timed s st m nz valid =
      let same : wake_thread_up k p ≡ unblocked_by_time s p k = ground (arith, st, m, valid) in
      same ∙ unblocked_by_time-eq s p k (ap is_timed_waiting st)
