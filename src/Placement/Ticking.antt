-- ===== src/Placement/Ticking.antt =====
-- The timer interrupt in the abstract view: sleepers whose time has come are in line.
use oskernel_riscv.Base.{
  Bool, leb, ℕ, ◌≡◌, refl, sym, ap, ◌∙◌, subst, ◌≢◌, ◌⊎◌, inl, inr, true, false, some, arith, ◌==◌,
  Bool-cases,
}
use oskernel_riscv.State.{
  Kernel, timeout, update, is_thread_valid, is_finished, inc64, preempted, set_my_sem,
  set_threads_sem_status,
}
use oskernel_riscv.Queue.{add_last, remove_spec}
use oskernel_riscv.Queue.Laws.{foreach_while_inv}
use oskernel_riscv.Scheduler.{put}
use oskernel_riscv.Semaphore.{continues, unblocked_by_time, reschedule, remove_from_sleep}
use oskernel_riscv.Semaphore.Wake.{Alive, roused}
use oskernel_riscv.Semaphore.End.{out_of_time}
use oskernel_riscv.Time.{
  should_wake_up_thread, wake_thread_up, wake_asleep_threads_up, tick, timer_interrupt_handler,
}
use oskernel_riscv.Placement.{
  Place, no_thread, on_cpu, in_line, in_bed, held_by, held_until, bed_count, At, PlacedOn, Placed,
}
use oskernel_riscv.Placement.Moves.{Placed-stay}
use oskernel_riscv.Placement.Reschedule.{Switch, yield-Switch}
use oskernel_riscv.Placement.Rousing.{
  risen-Placed, risen, timed_out-Placed, wake-nobody, wake-risen, wake-timed,
}

-- Some threads that were among the sleepers are in line now, and all others where they were.
abbrev pub Rises : (ℕ → Place) → (ℕ → Place) → Type 0
Rises f g = (q : ℕ) → (g q ≡ f q) ⊎ ((g q ≡ in_line) × (bed_count (f q) ≡ 1))

pub Rises-trans : (f g h : ℕ → Place) → Rises f g → Rises g h → Rises f h
Rises-trans f g h a b q = elim (a q) [
  | inl e ↦ elim (b q) [ inl d ↦ inl (d ∙ e) | inr (d, bed) ↦ inr (d, ap bed_count (sym e) ∙ bed) ]
  | inr (e, bed) ↦ elim (b q) [
    | inl d ↦ inr (d ∙ e, bed)
    | inr (d, no_bed) ↦ absurd (ground (arith, ap bed_count e, no_bed))
  ]
]

Rises-one :
    (places : ℕ → Place) (p : ℕ) → bed_count (places p) ≡ 1 → Rises places (update places p in_line)
Rises-one places p bed q = elim (Bool-cases (q == p)) [
  | inl e ↦ inr (ground arith, ground arith)
  | inr e ↦ inl (ground arith)
]

-- At most the place of `p` is another.
abbrev pub Only : ℕ → (ℕ → Place) → (ℕ → Place) → Type 0
Only p f g = (q : ℕ) → (g q ≡ f q) ⊎ (q ≡ p)

Only-one : (places : ℕ → Place) (p : ℕ) → Only p places (update places p in_line)
Only-one places p q = elim (Bool-cases (q == p)) [
  | inl e ↦ inr (ground (arith, e))
  | inr e ↦ inl (ground arith)
]

Alive-valid : (k : Kernel) (p : ℕ) → Alive k p → is_thread_valid k p ≡ true
unfolding is_finished
Alive-valid k p (nz, a) = ground arith

wake-invalid : (p : ℕ) (k : Kernel) → is_thread_valid k p ≡ false → wake_thread_up k p ≡ k
unfolding wake_thread_up
wake-invalid p k v = rw v refl

-- Waking does nothing, or gets a sleeper up, or ends a timed wait.
module _ (p c : ℕ) (k : Kernel) (places : ℕ → Place) (all : PlacedOn c k places) where
  abbrev pub Wakes : Type 0
  Wakes =
      (wake_thread_up k p ≡ k)
      ⊎ (((places p ≡ in_bed)
            × (wake_thread_up k p
                ≡ put p (record k { list_asleep = (remove_spec p k.list_asleep).1 })))
          ⊎ ((s : ℕ) × (places p ≡ held_until s)
              × (wake_thread_up k p ≡ roused timeout p (out_of_time s p k))))

  pub wake-cases : Wakes
  unfolding risen
  wake-cases = go (places p) refl
    where
      go : (x : Place) → places p ≡ x → Wakes
      go no_thread e =
          let a : At c k p no_thread = subst (At c k p) e (all p) in inl (wake-invalid p k a.fits)
      go on_cpu e =
          let a : At c k p on_cpu = subst (At c k p) e (all p) in
          inl (wake-nobody p c k places all (ground (arith, a.fits.1)) a.bedded a.fits.0.0)
      go in_line e =
          let a : At c k p in_line = subst (At c k p) e (all p) in
          inl (wake-nobody p c k places all (ground (arith, a.fits.1)) a.bedded a.fits.0.0)
      go in_bed e =
          let a : At c k p in_bed = subst (At c k p) e (all p) in
          inr (
            inl (
              e,
              wake-risen p c k places all (ground (arith, a.fits.1)) a.bedded
                  (Alive-valid k p a.fits.0) a.fits.0.0,
            ))
      go (held_by s) e =
          let a : At c k p (held_by s) = subst (At c k p) e (all p) in
          inl (wake-nobody p c k places all (ground (arith, a.fits.1)) a.bedded a.fits.0.0)
      go (held_until s) e =
          let a : At c k p (held_until s) = subst (At c k p) e (all p) in
          inr (
            inr (
              s,
              e,
              wake-timed p c k places all s a.fits.1 a.fits.2 a.fits.3 (Alive-valid k p a.fits.0),
            ))

  pub wake-Risen :
      (g : ℕ → Place) × PlacedOn c (wake_thread_up k p) g × Rises places g × Only p places g
  unfolding risen
  wake-Risen = elim wake-cases [
    | inl e ↦
        (places, subst (λ j. PlacedOn c j places) (sym e) all, (λ q. inl refl), (λ q. inl refl))
    | inr (inl (at, e)) ↦ (
      update places p in_line,
      subst (λ j. PlacedOn c j (update places p in_line)) (sym e)
          (risen-Placed p c k places all at),
      Rises-one places p (ap bed_count at),
      Only-one places p,
    )
    | inr (inr (s, at, e)) ↦ (
      update places p in_line,
      subst (λ j. PlacedOn c j (update places p in_line)) (sym e)
          (timed_out-Placed p c k places all s at),
      Rises-one places p (ap bed_count at),
      Only-one places p,
    )
  ]

pub wake-current : (p : ℕ) (k : Kernel) → (wake_thread_up k p).current ≡ k.current
unfolding wake_thread_up unblocked_by_time put remove_from_sleep set_my_sem set_threads_sem_status
wake-current p k = ground arith

-- The clocks count the tick, and the times of the threads are as they were.
pub record Clocked (k₀ k : Kernel) : Type 0 where
  pub now : k.sys_time ≡ inc64 k₀.sys_time
  pub used : k.cpu_time ≡ inc64 k₀.cpu_time
  pub wakes : (q : ℕ) → (k.threads q).time_for_waking_up ≡ (k₀.threads q).time_for_waking_up
  pub slices : (q : ℕ) → (k.threads q).time_slice ≡ (k₀.threads q).time_slice

wake-Clocked : (p : ℕ) (k₀ k : Kernel) → Clocked k₀ k → Clocked k₀ (wake_thread_up k p)
unfolding wake_thread_up unblocked_by_time put remove_from_sleep set_my_sem set_threads_sem_status
wake-Clocked p k₀ k is = record {
  now = ground (arith, is.now);
  used = ground (arith, is.used);
  wakes = λ q. ground (arith, is.wakes q);
  slices = λ q. ground (arith, is.slices q);
}

-- The time of the thread has come when the tick of `k` has been counted.
abbrev pub is_due : Kernel → ℕ → Bool
is_due k q = leb (k.threads q).time_for_waking_up (inc64 k.sys_time)

-- Threads whose place changes are due.
abbrev pub Due : Kernel → (ℕ → Place) → (ℕ → Place) → Type 0
Due k f g = (q : ℕ) → (g q ≡ f q) ⊎ (is_due k q ≡ true)

-- A kernel during the tick of `k₀`.
Ticked : Kernel → (ℕ → Place) → Kernel → Type 0
Ticked k₀ places k =
    ((g : ℕ → Place) × PlacedOn k₀.current k g × Rises places g × Due k₀ places g)
    × (k.current ≡ k₀.current)
    × Clocked k₀ k

wake-Ticked :
    (k₀ : Kernel) (places : ℕ → Place) (k : Kernel) (p : ℕ)
    → should_wake_up_thread k p ≡ true
    → Ticked k₀ places k
    → Ticked k₀ places (wake_thread_up k p)
unfolding Ticked should_wake_up_thread
wake-Ticked k₀ places k p goes ((g, all, up, due), cur, is) =
    let (h, all', up', only) = wake-Risen p k₀.current k g all in
    let mine : is_due k₀ p ≡ true =
      subst (λ t. leb t (inc64 k₀.sys_time) ≡ true) (is.wakes p)
        (subst (λ t. leb (k.threads p).time_for_waking_up t ≡ true) is.now goes) in
    (
      (h, all', Rises-trans places g h up up', later h only mine),
      wake-current p k ∙ cur,
      wake-Clocked p k₀ k is,
    )
  where
    later : (h : ℕ → Place) → Only p g h → is_due k₀ p ≡ true → Due k₀ places h
    later h only mine q = elim (only q) [
      | inr e ↦ inr (subst (λ x. is_due k₀ x ≡ true) (sym e) mine)
      | inl e ↦ elim (due q) [ inl d ↦ inl (e ∙ d) | inr d ↦ inr d ]
    ]

-- A tick moves some sleepers that are due into the line, and nobody else.
pub tick-Rises :
    (k : Kernel) (places : ℕ → Place)
    → Placed k places
    → ((g : ℕ → Place) × PlacedOn k.current (tick k) g × Rises places g × Due k places g)
      × ((tick k).current ≡ k.current)
      × Clocked k (tick k)
unfolding tick wake_asleep_threads_up Ticked
tick-Rises k places all =
    let k₁ = record k { sys_time = inc64 k.sys_time; cpu_time = inc64 k.cpu_time } in
    let all₁ = Placed-stay k.current k.current k k₁ places all (λ q. record {
      seat_same = refl;
      line_same = refl;
      bed_same = refl;
      held_same = λ t. refl;
      alike = (refl, refl, refl, refl);
    }) in
    let is : Clocked k k₁ = record {
      now = refl;
      used = refl;
      wakes = λ q. refl;
      slices = λ q. refl;
    } in
    foreach_while_inv (Ticked k places) should_wake_up_thread wake_thread_up
      (λ j p goes t. wake-Ticked k places j p goes t) k.list_asleep k₁
      ((places, all₁, (λ q. inl refl), (λ q. inl refl)), refl, is)

-- The time slice of the running thread is over when the tick has been counted.
abbrev pub is_over : Kernel → Bool
is_over k = leb (k.threads k.current).time_slice (inc64 k.cpu_time)

-- The timer interrupt, in a kernel that runs a thread and has every thread at its place, ends: some sleepers,
-- all of them due when the tick has been counted, have moved into the ready queue, and all others stay. If the
-- time that the running thread has used is then below its time slice, it goes on; otherwise it goes to the end
-- of that queue and the thread at its front runs.
pub timer-Switch :
    (k : Kernel) (places : ℕ → Place)
    → Placed k places
    → k.current ≢ 0
    → (g : ℕ → Place) × Rises places g
      × Due k places g
      × (((is_over k ≡ false)
            × (timer_interrupt_handler k ≡ some (continues, tick k))
            × Placed (tick k) g)
          ⊎ ((is_over k ≡ true)
              × Switch
                  (timer_interrupt_handler k)
                  (add_last (tick k).queue_threads k.current)
                  (tick k).freed
                  (update g k.current in_line)))
unfolding timer_interrupt_handler
timer-Switch k places all nz =
    let ((g, all', up, due), cur, is) = tick-Rises k places all in
    let j = tick k in
    let placed : Placed j g = subst (λ c. PlacedOn c j g) (sym cur) all' in
    let slice : (j.threads j.current).time_slice ≡ (k.threads k.current).time_slice =
      ap (λ (c : ℕ). (j.threads c).time_slice) cur ∙ is.slices k.current in
    let over = leb (j.threads j.current).time_slice j.cpu_time in
    let same : over ≡ is_over k =
      ap (λ (t : ℕ). leb t j.cpu_time) slice
      ∙ ap (λ (t : ℕ). leb (k.threads k.current).time_slice t) is.used in
    (
      g,
      up,
      due,
      elim (Bool-cases over) [
        | inl e ↦ inr (
          sym same ∙ e,
          rw e (
              subst
                (λ c.
                  Switch (reschedule preempted j) (add_last j.queue_threads c) j.freed
                    (update g c in_line))
                cur (yield-Switch j g preempted placed (λ zero. nz (sym cur ∙ zero)))),
        )
        | inr e ↦ inl (sym same ∙ e, rw e refl, placed)
      ],
    )
