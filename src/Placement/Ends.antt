-- ===== src/Placement/Ends.antt =====
-- The events that may give the processor up, from a sound state, end in a sound state.
use oskernel_riscv.Base.{
  ℕ, ◌≡◌, sym, ap, ◌∙◌, subst, ◌≢◌, ◌⊎◌, inl, inr, Option, some, List, [], ◌∷◌, ◌++◌, arith, ◌==◌,
  ◌>>=◌, Bool-cases,
}
use oskernel_riscv.State.{Kernel, Resume, yielded, exited, update}
use oskernel_riscv.Queue.{add_last}
use oskernel_riscv.Scheduler.{exit}
use oskernel_riscv.Semaphore.{
  continues, Reply, returns, sem_didnt_wait, reschedule, resume, wait_as, timed_wait,
}
use oskernel_riscv.Semaphore.Balance.{
  Balanced, reschedule-Balanced, wait_as-Balanced, timed_wait-Balanced,
}
use oskernel_riscv.Time.{tick, timer_interrupt_handler, put_running_thread_to_sleep}
use oskernel_riscv.Placement.{
  Place, no_thread, on_cpu, in_line, in_bed, held_by, held_until, seat, on_cpu_count, At,
}
use oskernel_riscv.Placement.Reschedule.{Switch, yield-Switch}
use oskernel_riscv.Placement.Waiting.{wait_as-Switch, timed_wait-Switch}
use oskernel_riscv.Placement.Sleeping.{sleep-Switch, exit-Switch}
use oskernel_riscv.Placement.Waking.{released}
use oskernel_riscv.Placement.Ticking.{Rises, tick-Rises, timer-Switch}
use oskernel_riscv.Placement.Balance.{exit-Balanced, timer-Balanced, sleep-Balanced}
use oskernel_riscv.Placement.Events.{Sound, Ends}

-- Who is moved into the line can run.
pub still_busy :
    (i : ℕ) (places : ℕ → Place) (p : ℕ)
    → (places i ≡ on_cpu) ⊎ (places i ≡ in_line)
    → (update places p in_line i ≡ on_cpu) ⊎ (update places p in_line i ≡ in_line)
still_busy i places p b = elim (Bool-cases (i == p)) [
  | inl e ↦ inr (ground arith)
  | inr e ↦ elim b [ inl at ↦ inl (ground (arith, at)) | inr at ↦ inr (ground (arith, at)) ]
]

pub released_busy :
    (i : ℕ) (ps : List ℕ) (places : ℕ → Place)
    → (places i ≡ on_cpu) ⊎ (places i ≡ in_line)
    → (released ps places i ≡ on_cpu) ⊎ (released ps places i ≡ in_line)
released_busy i [] places b = b
released_busy i (p ∷ ps) places b =
    released_busy i ps (update places p in_line) (still_busy i places p b)

module _ (i : ℕ) (k : Kernel) (is : Sound i k) where
  pub waiting_in_line : k.current ≢ i → is.places i ≡ in_line
  waiting_in_line ne = elim is.busy [
    | inl at ↦ absurd (ne (ground (arith, (is.placed i).seated, ap on_cpu_count at)))
    | inr at ↦ at
  ]

  -- Behind a switch.
  pub Switch-Ends :
      (o : Option (Reply × Kernel)) (line freed : List ℕ) (places : ℕ → Place)
      → places i ≡ in_line
      → ((r : Reply) (k' : Kernel) → o ≡ some (r, k') → Balanced k')
      → Switch o line freed places
      → Ends i o
  Switch-Ends o line freed places at b sw =
      let first : At sw.after.current sw.after sw.next on_cpu =
        subst (At sw.after.current sw.after sw.next) (ground arith) (sw.placed sw.next) in
      (
        sw.reply,
        sw.after,
        sw.ran,
        record {
          places = update places sw.next on_cpu;
          placed = sw.placed;
          balanced = b sw.reply sw.after sw.ran;
          runs = λ e. first.fits.0.0 (sym sw.now_runs ∙ e);
          busy = elim (Bool-cases (i == sw.next)) [
            | inl e ↦ inl (ground arith)
            | inr e ↦ inr (ground (arith, at))
          ];
        },
      )

  pub moved_away : (x : Place) → k.current ≢ i → update is.places k.current x i ≡ in_line
  moved_away x ne = ground (arith, waiting_in_line ne)

  pub wait-Ends :
      (c : Resume) (q : Reply) (s : ℕ) → k.current ≢ i → s ≢ 0 → Ends i (wait_as c q s k)
  wait-Ends c q s ne real =
      elim (wait_as-Switch s k is.places is.placed is.runs real c q i (waiting_in_line ne)) [
        | inl (_, ran, all) ↦ (
          q,
          _,
          ran,
          record {
            places = is.places;
            placed = all;
            balanced = wait_as-Balanced c q s k _ q is.balanced ran;
            runs = is.runs;
            busy = is.busy;
          },
        )
        | inr (_, sw) ↦
            Switch-Ends (wait_as c q s k) k.queue_threads k.freed
              (update is.places k.current (held_by s)) (moved_away (held_by s) ne)
              (λ r k' e. wait_as-Balanced c q s k k' r is.balanced e) sw
      ]

  pub timed_wait-Ends : (s time : ℕ) → k.current ≢ i → s ≢ 0 → Ends i (timed_wait s time k)
  timed_wait-Ends s time ne real =
      elim (timed_wait-Switch s k is.places is.placed is.runs real time i (waiting_in_line ne)) [
        | inl (_, ran, all) ↦ (
          returns sem_didnt_wait,
          _,
          ran,
          record {
            places = is.places;
            placed = all;
            balanced = timed_wait-Balanced s time k _ (returns sem_didnt_wait) is.balanced ran;
            runs = is.runs;
            busy = is.busy;
          },
        )
        | inr (_, sw) ↦
            Switch-Ends (timed_wait s time k) k.queue_threads k.freed
              (update is.places k.current (held_until s)) (moved_away (held_until s) ne)
              (λ r k' e. timed_wait-Balanced s time k k' r is.balanced e) sw
      ]

  pub yield-Ends : Ends i (reschedule yielded k)
  yield-Ends =
      Switch-Ends (reschedule yielded k) (add_last k.queue_threads k.current) k.freed
        (update is.places k.current in_line) (busy_in_line is.busy)
        (λ r k' e. reschedule-Balanced yielded k k' r e is.balanced)
        (yield-Switch k is.places yielded is.placed is.runs)
    where
      busy_in_line :
          (is.places i ≡ on_cpu) ⊎ (is.places i ≡ in_line)
          → update is.places k.current in_line i ≡ in_line
      busy_in_line (inl at) =
          let mine : seat k.current i ≡ 1 = (is.placed i).seated ∙ ap on_cpu_count at in
          ground (arith, mine)
      busy_in_line (inr at) = ground (arith, at)

  -- Whoever could run before the sleepers rose still can.
  pub risen_busy : (g : ℕ → Place) → Rises is.places g → (g i ≡ on_cpu) ⊎ (g i ≡ in_line)
  risen_busy g up = elim (up i) [
    | inl same ↦ elim is.busy [ inl at ↦ inl (same ∙ at) | inr at ↦ inr (same ∙ at) ]
    | inr (at, _) ↦ inr at
  ]

  pub sleep-Ends : (time : ℕ) → k.current ≢ i → Ends i (put_running_thread_to_sleep time k)
  sleep-Ends time ne =
      Switch-Ends (put_running_thread_to_sleep time k) k.queue_threads k.freed
        (update is.places k.current in_bed) (moved_away in_bed ne)
        (λ r k' e. sleep-Balanced time k k' r is.balanced e)
        (sleep-Switch k is.places is.placed is.runs time i (waiting_in_line ne))

  pub exit-Ends : k.current ≢ i → Ends i (exit exited k >>= λ k'. some (resume k'))
  exit-Ends ne =
      Switch-Ends (exit exited k >>= λ k'. some (resume k')) k.queue_threads
        ((k.freed ++ (k.threads k.current).stack ∷ []) ++ k.current ∷ [])
        (update is.places k.current no_thread) (moved_away no_thread ne)
        (λ r k' e. exit-Balanced k is.places r k' is.placed is.runs is.balanced e)
        (exit-Switch k is.places is.placed is.runs exited i (waiting_in_line ne))

  pub timer-Ends : Ends i (timer_interrupt_handler k)
  timer-Ends =
      let (g, up, due, done) = timer-Switch k is.places is.placed is.runs in
      elim done [
        | inl (_, ran, all) ↦ (
          continues,
          tick k,
          ran,
          record {
            places = g;
            placed = all;
            balanced = timer-Balanced k is.places continues (tick k) is.placed is.balanced ran;
            runs = λ e. is.runs (sym (tick-Rises k is.places is.placed).1 ∙ e);
            busy = risen_busy g up;
          },
        )
        | inr (_, sw) ↦
            Switch-Ends (timer_interrupt_handler k) (add_last (tick k).queue_threads k.current)
              (tick k).freed (update g k.current in_line) (in_line_again g up)
              (λ r k' e. timer-Balanced k is.places r k' is.placed is.balanced e) sw
      ]
    where
      in_line_again : (g : ℕ → Place) → Rises is.places g → update g k.current in_line i ≡ in_line
      in_line_again g up = elim (risen_busy g up) [
        | inl at ↦ elim (up i) [
          | inl same ↦
              let mine : seat k.current i ≡ 1 =
                (is.placed i).seated ∙ ap on_cpu_count (sym same ∙ at) in
              ground (arith, mine)
          | inr (line, _) ↦ ground (arith, line)
        ]
        | inr at ↦ ground (arith, at)
      ]
