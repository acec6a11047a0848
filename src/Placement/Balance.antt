-- ===== src/Placement/Balance.antt =====
-- The other operations keep the values and the queues of the semaphores in agreement, where the threads
-- are at their places.
use oskernel_riscv.Base.{
  ℕ, ◌<◌, ◌^◌, ◌≡◌, refl, sym, ap, ◌∙◌, subst, ◌≢◌, inl, inr, some, List, [], ◌∷◌, arith, ◌==◌,
  ◌>>=◌, Bool-cases, length, leb,
}
use oskernel_riscv.Base.Int.{ℤ, inc}
use oskernel_riscv.State.{
  Kernel, Sem, slept, set_thread_state, set_time_for_waking_up, is_finished, is_thread_valid,
  exited, regularly_waited, timeout, inc64, preempted,
}
use oskernel_riscv.Queue.{remove_spec}
use oskernel_riscv.Queue.Laws.{foreach_while_inv, length-remove_spec}
use oskernel_riscv.Queue.Count.{count, count-has, count-All}
use oskernel_riscv.Scheduler.{put, exit}
use oskernel_riscv.Semaphore.{
  Reply, insert_asleep, resume, signal, set_val, construct_sem, delete_sem,
}
use oskernel_riscv.Semaphore.Balance.{BalancedAt, Balanced, deficit-inc, reschedule-Balanced}
use oskernel_riscv.Semaphore.Wake.{
  Alive, woken, signal-free, signal-woken, woken-Woken, roused, roused-rest,
}
use oskernel_riscv.Semaphore.End.{out_of_time, delete_sem-AllWoken}
use oskernel_riscv.Time.{
  put_running_thread_to_sleep, fall_asleep, should_wake_up_thread, wake_thread_up,
  wake_asleep_threads_up, tick, timer_interrupt_handler,
}
use oskernel_riscv.Placement.{Place, held_by, held_until, At, PlacedOn, Placed}
use oskernel_riscv.Placement.Moves.{Placed-stay}
use oskernel_riscv.Placement.Waiting.{set_val-Placed}
use oskernel_riscv.Placement.Waking.{held-place}
use oskernel_riscv.Placement.Ticking.{wake-cases, wake-Risen}
use oskernel_riscv.Placement.Sleeping.{exit-reschedule}

pub Balanced-sems : (k k' : Kernel) → k'.sems ≡ k.sems → Balanced k → Balanced k'
Balanced-sems k k' e b s = ground (arith, ap (λ (f : ℕ → Sem). f s) e, b s)

-- A thread that a semaphore holds is alive.
held-Alive :
    (c : ℕ) (k : Kernel) (places : ℕ → Place) (s p : ℕ)
    → PlacedOn c k places
    → 0 < count p (k.sems s).queue_blocked
    → Alive k p
held-Alive c k places s p all h =
    elim (held-place (places p) s (ground (arith, (all p).held s, h))) [
      | inl at ↦ let a : At c k p (held_by s) = subst (At c k p) at (all p) in a.fits.0
      | inr at ↦ let a : At c k p (held_until s) = subst (At c k p) at (all p) in a.fits.0
    ]

pub signal-Balanced :
    (s : ℕ) (k : Kernel) (places : ℕ → Place) (z : ℤ) (k' : Kernel)
    → Placed k places
    → Balanced k
    → signal s k ≡ some (z, k')
    → Balanced k'
signal-Balanced s k places z k' all b e = go (k.sems s).queue_blocked refl
  where
    go : (xs : List ℕ) → (k.sems s).queue_blocked ≡ xs → Balanced k'
    go [] q t =
        let same : set_val s (inc (k.sems s).val) k ≡ k' =
          ground (arith, signal-free s k (b s) q, e) in
        subst (λ j. BalancedAt j t) same
          (ground (arith, b t, b s, deficit-inc (k.sems s).val, ap length q))
    go (p ∷ rest) q t =
        let k₁ = set_val s (inc (k.sems s).val) k in
        let alive : Alive k₁ p =
          held-Alive k.current k₁ places s p
            (set_val-Placed s (inc (k.sems s).val) k.current k places all)
            (ground (arith, ap (count p) q)) in
        let is = woken-Woken regularly_waited s p rest k₁ alive refl in
        let same : woken regularly_waited s p rest k₁ ≡ k' =
          ground (arith, signal-woken s p rest k (b s) q alive.0, e) in
        subst (λ j. BalancedAt j t) same
          (elim (Bool-cases (t == s)) [
            | inl at ↦
                ground (arith, is.queue, is.value, deficit-inc (k.sems s).val, b s, ap length q)
            | inr other ↦ ground (arith, is.other_sems t, b t)
          ])

pub delete_sem-Balanced :
    (s : ℕ) (k : Kernel) (places : ℕ → Place) (k' : Kernel)
    → Placed k places
    → Balanced k
    → delete_sem s k ≡ some k'
    → Balanced k'
delete_sem-Balanced s k places k' all b e t =
    let alive =
      count-All (Alive k) (k.sems s).queue_blocked
        (λ p h. held-Alive k.current k places s p all h) in
    let (j, ran, is, _) = delete_sem-AllWoken s k (b s) alive in
    let same : j ≡ k' = ground (arith, ran, e) in
    subst (λ i. BalancedAt i t) same
      (elim (Bool-cases (t == s)) [
        | inl at ↦ ground (arith, is.queue, is.value)
        | inr other ↦ ground (arith, is.other_sems t, b t)
      ])

-- A semaphore with a value below 2^63 begins in balance.
pub construct_sem-Balanced :
    (s n : ℕ) (k : Kernel) → n < 2 ^ 63 → Balanced k → Balanced (construct_sem s n k)
unfolding construct_sem
construct_sem-Balanced s n k small b t = ground (arith, b t)

pub exit-Balanced :
    (k : Kernel) (places : ℕ → Place) (r : Reply) (k' : Kernel)
    → Placed k places
    → k.current ≢ 0
    → Balanced k
    → (exit exited k >>= λ j. some (resume j)) ≡ some (r, k')
    → Balanced k'
exit-Balanced k places r k' all nz b e =
    let (j, same, sems) = exit-reschedule k places all nz exited in
    reschedule-Balanced exited j k' r (sym same ∙ e) (Balanced-sems k j sems b)

-- A wait whose time is over counts as one unit, and the thread leaves the queue.
timed_out-Balanced :
    (s p c : ℕ) (k : Kernel) (places : ℕ → Place)
    → PlacedOn c k places
    → places p ≡ held_until s
    → Balanced k
    → Balanced (roused timeout p (out_of_time s p k))
unfolding is_finished is_thread_valid
timed_out-Balanced s p c k places all at b t =
    let a : At c k p (held_until s) = subst (At c k p) at (all p) in
    let j = out_of_time s p k in
    let alive : Alive j p = a.fits.0 in
    let rest = roused-rest timeout p j alive refl in
    let inq = count-has p (k.sems s).queue_blocked (ground (arith, a.held s)) in
    ground (
      arith,
      ap (λ (f : ℕ → Sem). f t) rest.0,
      b t,
      b s,
      deficit-inc (k.sems s).val,
      length-remove_spec p (k.sems s).queue_blocked a.fits.0.0 inq,
    )

put-sems : (p : ℕ) (k : Kernel) → (put p k).sems ≡ k.sems
unfolding put
put-sems p k = refl

wake-Balanced :
    (p c : ℕ) (k : Kernel) (places : ℕ → Place)
    → PlacedOn c k places
    → Balanced k
    → Balanced (wake_thread_up k p)
wake-Balanced p c k places all b = elim (wake-cases p c k places all) [
  | inl e ↦ subst (λ j. Balanced j) (sym e) b
  | inr (inl (at, e)) ↦
      subst (λ j. Balanced j) (sym e)
        (Balanced-sems k (put p (record k { list_asleep = (remove_spec p k.list_asleep).1 }))
          (put-sems p _) b)
  | inr (inr (s, at, e)) ↦
      subst (λ j. Balanced j) (sym e) (timed_out-Balanced s p c k places all at b)
]

-- What holds during the tick.
Waking : ℕ → Kernel → Type 0
Waking c k = ((places : ℕ → Place) × PlacedOn c k places) × Balanced k

pub tick-Balanced :
    (k : Kernel) (places : ℕ → Place) → Placed k places → Balanced k → Balanced (tick k)
unfolding tick wake_asleep_threads_up Waking
tick-Balanced k places all b =
    let k₁ = record k { sys_time = inc64 k.sys_time; cpu_time = inc64 k.cpu_time } in
    let all₁ = Placed-stay k.current k.current k k₁ places all (λ q. record {
      seat_same = refl;
      line_same = refl;
      bed_same = refl;
      held_same = λ t. refl;
      alike = (refl, refl, refl, refl);
    }) in
    let done =
      foreach_while_inv (Waking k.current) should_wake_up_thread wake_thread_up
        (λ j p _ w.
          let (g, all', _, _) = wake-Risen p k.current j w.0.0 w.0.1 in
          ((g, all'), wake-Balanced p k.current j w.0.0 w.0.1 w.1))
        k.list_asleep k₁ ((places, all₁), b) in
    done.1

pub timer-Balanced :
    (k : Kernel) (places : ℕ → Place) (r : Reply) (k' : Kernel)
    → Placed k places
    → Balanced k
    → timer_interrupt_handler k ≡ some (r, k')
    → Balanced k'
unfolding timer_interrupt_handler
timer-Balanced k places r k' all b e =
    let j = tick k in
    let bj = tick-Balanced k places all b in
    elim (Bool-cases (leb (j.threads j.current).time_slice j.cpu_time)) [
      | inl over ↦ reschedule-Balanced preempted j k' r (rw (over, timer_interrupt_handler) at e) bj
      | inr on ↦ let same : j ≡ k' = ground (arith, on, e) in subst (λ i. Balanced i) same bj
    ]

fall_asleep-sems : (p time : ℕ) (k : Kernel) → (fall_asleep p time k).sems ≡ k.sems
unfolding fall_asleep insert_asleep set_thread_state set_time_for_waking_up
fall_asleep-sems p time k = ground arith

pub sleep-Balanced :
    (time : ℕ) (k k' : Kernel) (r : Reply)
    → Balanced k
    → put_running_thread_to_sleep time k ≡ some (r, k')
    → Balanced k'
unfolding put_running_thread_to_sleep
sleep-Balanced time k k' r b e = elim (Bool-cases (is_thread_valid k k.current)) [
  | inl valid ↦
      let j = fall_asleep k.current time k in
      reschedule-Balanced slept j k' r (rw (valid, put_running_thread_to_sleep) at e)
        (Balanced-sems k j (fall_asleep-sems k.current time k) b)
  | inr not_valid ↦
      let same : k ≡ k' = ground (arith, not_valid, e) in subst (λ i. Balanced i) same b
]
