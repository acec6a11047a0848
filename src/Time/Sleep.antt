-- ===== src/Time/Sleep.antt =====
-- The list of sleepers: in order of their times, and which of them a tick wakes.
use oskernel_riscv.Base.{
  ℕ, suc, ◌+◌, ◌^◌, ◌<◌, ◌≡◌, refl, sym, ap, ◌∙◌, subst, ◌≢◌, inl, inr, Bool, true, false, List, [],
  ◌∷◌, ◌++◌, append_assoc, append-nil, arith, leb, ◌==◌, Bool-cases,
}
use oskernel_riscv.Queue.{add_last, insert_sorted, foreach_while}
use oskernel_riscv.State.{
  timeout, Kernel, inc64, is_timed_waiting, is_thread_valid, set_my_sem, set_threads_sem_status,
}
use oskernel_riscv.Scheduler.{put}
use oskernel_riscv.Semaphore.{remove_from_sleep, insert_asleep, unblocked_by_time}
use oskernel_riscv.Time.{should_wake_up_thread, wake_thread_up, wake_asleep_threads_up, tick}
use oskernel_riscv.Semaphore.Wake.{roused}
use oskernel_riscv.Semaphore.End.{out_of_time, unblocked_by_time-eq}
use oskernel_riscv.Queue.Sorted.{All-le, Sorted, insert_loop-Sorted}
use oskernel_riscv.Queue.Laws.{
  foreach_while_inv, All, has, Nodup, take_while, drop_while, remove_spec-cons,
}

abbrev pub wake_time : Kernel → ℕ → ℕ
wake_time k p = (k.threads p).time_for_waking_up

-- The sleepers of a kernel, in the order of their times.
abbrev pub Ordered : Kernel → Type 0
Ordered k = Sorted (wake_time k) k.list_asleep

-- A thread that falls asleep is put among the sleepers so that they stay in order of their times.
pub insert_asleep-Ordered : (p : ℕ) (k : Kernel) → Ordered k → Ordered (insert_asleep p k)
unfolding insert_asleep insert_sorted
insert_asleep-Ordered p k s = elim (Bool-cases (p == 0)) [
  | inl null ↦ rw null s
  | inr real ↦ rw real (insert_loop-Sorted (wake_time k) p k.list_asleep s)
]

-- Whether a sleeper is due.
abbrev pub due : Kernel → ℕ → Bool
due k p = leb (wake_time k p) k.sys_time

-- What the kernel promises of the sleepers: each is a valid thread, and one with a time limit waits
-- on a semaphore.
pub record Sleeper (k : Kernel) (p : ℕ) : Type 0 where
  pub real : p ≢ 0
  pub valid : is_thread_valid k p ≡ true
  pub bound : is_timed_waiting (k.threads p).sem_status ≡ true → (k.threads p).my_sem ≢ 0

-- The state after one sleeper, the first of the list, is woken.
record WakeStep (x : ℕ) (xs : List ℕ) (k k' : Kernel) : Type 0 where
  asleep : k'.list_asleep ≡ xs
  line : k'.queue_threads ≡ add_last k.queue_threads x
  time : k'.sys_time ≡ k.sys_time
  others : (q : ℕ) → q ≢ x → k'.threads q ≡ k.threads q

wake_plain :
    (x : ℕ) (xs : List ℕ) (k : Kernel)
    → k.list_asleep ≡ x ∷ xs
    → Sleeper k x
    → is_timed_waiting (k.threads x).sem_status ≡ false
    → WakeStep x xs k (wake_thread_up k x)
unfolding wake_thread_up put
wake_plain x xs k e is t = ground (arith, remove_spec-cons x xs is.real)

-- The last steps of a timed waking leave these parts alone, whatever the thread is.
timed_rest : (x : ℕ) (j : Kernel) → WakeStep x j.list_asleep j (roused timeout x j)
unfolding roused put set_my_sem set_threads_sem_status
timed_rest x j = ground arith

wake_timed :
    (x : ℕ) (xs : List ℕ) (k : Kernel)
    → k.list_asleep ≡ x ∷ xs
    → Sleeper k x
    → is_timed_waiting (k.threads x).sem_status ≡ true
    → WakeStep x xs k (wake_thread_up k x)
unfolding wake_thread_up
wake_timed x xs k e is t =
    let s = (k.threads x).my_sem in
    let j = out_of_time s x k in
    let step : wake_thread_up k x ≡ unblocked_by_time s x k = ground (arith, is.bound) in
    let rest = timed_rest x j in
    let taken : j.list_asleep ≡ xs = ground (arith, e, remove_spec-cons x xs is.real) in
    subst (WakeStep x xs k) (sym (step ∙ unblocked_by_time-eq s x k t)) (record {
      asleep = rest.asleep ∙ taken;
      line = rest.line;
      time = rest.time;
      others = rest.others;
    })

wake_step :
    (x : ℕ) (xs : List ℕ) (k : Kernel)
    → k.list_asleep ≡ x ∷ xs
    → Sleeper k x
    → WakeStep x xs k (wake_thread_up k x)
wake_step x xs k e is = elim (Bool-cases (is_timed_waiting (k.threads x).sem_status)) [
  | inl t ↦ wake_timed x xs k e is t
  | inr t ↦ wake_plain x xs k e is t
]

-- The threads of `xs` are the same in both kernels.
abbrev SameThreads : Kernel → Kernel → List ℕ → Type 0
SameThreads k₀ k xs = All (λ q. k.threads q ≡ k₀.threads q) xs

SameThreads-step :
    (k₀ k k' : Kernel) (x : ℕ) (xs : List ℕ)
    → has x xs ≡ false
    → ((q : ℕ) → q ≢ x → k'.threads q ≡ k.threads q)
    → SameThreads k₀ k xs
    → SameThreads k₀ k' xs
SameThreads-step k₀ k k' x [] h o s = tt
SameThreads-step k₀ k k' x (y ∷ xs) h o s =
    (o y (ground arith) ∙ s.0, SameThreads-step k₀ k k' x xs (ground arith) o s.1)

wake_from :
    (k₀ : Kernel) (xs : List ℕ) (k : Kernel)
    → k.list_asleep ≡ xs
    → Nodup xs
    → All (Sleeper k₀) xs
    → SameThreads k₀ k xs
    → k.sys_time ≡ k₀.sys_time
    → let k' = foreach_while should_wake_up_thread wake_thread_up xs k in
      (k'.list_asleep ≡ drop_while (due k₀) xs)
      × (k'.queue_threads ≡ k.queue_threads ++ take_while (due k₀) xs)
unfolding foreach_while
wake_from k₀ [] k e n a s t = (e, sym (append-nil k.queue_threads))
wake_from k₀ (x ∷ xs) k e n a s t = elim (Bool-cases (due k₀ x)) [
  | inl d ↦
      let d' : should_wake_up_thread k x ≡ true = unfold should_wake_up_thread in (rw (s.0, t) d) in
      let is : Sleeper k x =
        unfold is_thread_valid in
        (record { real = a.0.real; valid = rw s.0 a.0.valid; bound = rw s.0 a.0.bound }) in
      let w = wake_step x xs k e is in
      let k₁ = wake_thread_up k x in
      let r =
        wake_from k₀ xs k₁ w.asleep n.1 a.1 (SameThreads-step k₀ k k₁ x xs n.0 w.others s.1)
          (w.time ∙ t) in
      rw (d, d')
        (
          r.0,
          r.1
              ∙ (ap (λ (l : List ℕ). l ++ take_while (due k₀) xs) w.line
                  ∙ append_assoc k.queue_threads (x ∷ []) _),
        )
  | inr d ↦
      let d' : should_wake_up_thread k x ≡ false =
        unfold should_wake_up_thread in (rw (s.0, t) d) in
      rw (d, d') (e, sym (append-nil k.queue_threads))
]

-- Of sleepers in order, none behind the first that is not due is due.
drop_while-All :
    (f : ℕ → ℕ) (now : ℕ) (xs : List ℕ)
    → Sorted f xs
    → All (λ q. now < f q) (drop_while (λ q. leb (f q) now) xs)
drop_while-All f now [] s = tt
drop_while-All f now (x ∷ xs) s = elim (Bool-cases (leb (f x) now)) [
  | inl over ↦ rw over (drop_while-All f now xs s.1)
  | inr later ↦ rw later (ground arith, All-le f (suc now) (f x) xs (ground arith) s.0)
]

-- A sleeper whose time has come at the time `now`.
abbrev pub due_at : Kernel → ℕ → ℕ → Bool
due_at k now p = leb (wake_time k p) now

clocked :
    (k : Kernel) (xs : List ℕ)
    → All (Sleeper k) xs
    → All (Sleeper (record k { sys_time = inc64 k.sys_time; cpu_time = inc64 k.cpu_time })) xs
unfolding is_thread_valid
clocked k [] a = tt
clocked k (x ∷ xs) (is, a) =
    (record { real = is.real; valid = is.valid; bound = is.bound }, clocked k xs a)

wake-time : (p : ℕ) (k : Kernel) → (wake_thread_up k p).sys_time ≡ k.sys_time
unfolding wake_thread_up unblocked_by_time put remove_from_sleep set_my_sem set_threads_sem_status
wake-time p k = ground arith

-- One tick advances the time by one. Of sleepers that stand in order, without repetitions, each a
-- valid thread that waits on a semaphore if it waits with a limit: those whose time has come leave
-- the list and join the ready queue in their order; all that stay are due later; none is lost.
pub tick-wakes :
    (k : Kernel)
    → k.sys_time + 1 < 2 ^ 64
    → Ordered k
    → Nodup k.list_asleep
    → All (Sleeper k) k.list_asleep
    → let now = k.sys_time + 1 in
      let k' = tick k in
      (k'.sys_time ≡ now)
      × (k'.list_asleep ≡ drop_while (due_at k now) k.list_asleep)
      × (k'.queue_threads ≡ k.queue_threads ++ take_while (due_at k now) k.list_asleep)
      × All (λ q. now < wake_time k q) k'.list_asleep
unfolding tick wake_asleep_threads_up
tick-wakes k small o n a =
    let k₁ = record k { sys_time = inc64 k.sys_time; cpu_time = inc64 k.cpu_time } in
    let now : k₁.sys_time ≡ k.sys_time + 1 = omega arith in
    let a₁ : All (Sleeper k₁) k.list_asleep = clocked k k.list_asleep a in
    let r = wake_from k₁ k.list_asleep k₁ refl n a₁ (same k.list_asleep) refl in
    let at : drop_while (due k₁) k.list_asleep
        ≡ drop_while (due_at k (k.sys_time + 1)) k.list_asleep =
      ap (λ (t : ℕ). drop_while (due_at k t) k.list_asleep) now in
    let at' : take_while (due k₁) k.list_asleep
        ≡ take_while (due_at k (k.sys_time + 1)) k.list_asleep =
      ap (λ (t : ℕ). take_while (due_at k t) k.list_asleep) now in
    (
      foreach_while_inv (λ j. j.sys_time ≡ k.sys_time + 1) should_wake_up_thread wake_thread_up
          (λ j p goes t. wake-time p j ∙ t) k.list_asleep k₁ now,
      r.0 ∙ at,
      r.1 ∙ ap (λ (l : List ℕ). k.queue_threads ++ l) at',
      subst (λ (l : List ℕ). All (λ q. k.sys_time + 1 < wake_time k q) l) (sym (r.0 ∙ at))
          (drop_while-All (wake_time k) (k.sys_time + 1) k.list_asleep o),
    )
  where
    same : (xs : List ℕ) → SameThreads k k xs
    same [] = tt
    same (x ∷ xs) = (refl, same xs)
