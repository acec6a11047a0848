-- ===== src/Semaphore/End.antt =====
-- `unblockAll`, the destructor of a semaphore, the time limit of a wait, and `tryWait`.
use oskernel_riscv.Base.{
  ℕ, ◌≡◌, refl, sym, ap, ◌∙◌, subst, ◌≢◌, true, false, none, some, List, [], ◌∷◌, ◌++◌,
  append_assoc, append-nil, arith, length,
}
use oskernel_riscv.Base.Int.{pos, inc}
use oskernel_riscv.Queue.{add_last, remove_spec}
use oskernel_riscv.State.{
  SemStatus, timed_waiting, timeout, sem_deleted, Kernel, dec64, is_timed_waiting, is_wait,
  is_thread_valid, is_finished, ready_to_run,
}
use oskernel_riscv.Scheduler.{free}
use oskernel_riscv.Semaphore.{
  remove_from_sleep, set_val, set_queue, try_wait, unblock, signal, unblocked_by_time, deficit,
  unblock_times, unblock_all, delete_sem,
}
use oskernel_riscv.Queue.Laws.{length-remove_spec, All, has}
use oskernel_riscv.Semaphore.Balance.{BalancedAt, deficit-inc}
use oskernel_riscv.Semaphore.Wake.{
  roused, roused-thread, roused-rest, Alive, Woken, woken, unblock-eq, woken-Woken, woken-Alive,
}

-- All of `xs` were woken: the semaphore blocks nobody, and they stand in the ready queue in order.
pub record AllWoken (cause : SemStatus) (s : ℕ) (xs : List ℕ) (k k' : Kernel) : Type 0 where
  pub queue : (k'.sems s).queue_blocked ≡ []
  pub value : deficit (k'.sems s).val ≡ 0
  pub line : k'.queue_threads ≡ k.queue_threads ++ xs
  pub statuses : All (λ p. (k'.threads p).sem_status ≡ cause) xs
  pub kept : (p : ℕ) → (k.threads p).sem_status ≡ cause → (k'.threads p).sem_status ≡ cause
  pub other_sems : (t : ℕ) → t ≢ s → k'.sems t ≡ k.sems t

module _ (cause : SemStatus) (w : is_wait cause ≡ false) (s : ℕ) where
  one-Woken :
      (p : ℕ) (rest : List ℕ) (k : Kernel)
      → (k.sems s).queue_blocked ≡ p ∷ rest
      → Alive k p
      → (k₁ : Kernel) × (unblock cause s k ≡ some k₁)
        × Woken cause s p rest k k₁
        × ((q : ℕ) → Alive k q → Alive k₁ q)
  one-Woken p rest k e a = (
    woken cause s p rest k,
    unblock-eq cause s p rest k e a.0,
    woken-Woken cause s p rest k a w,
    woken-Alive cause s p rest k a w,
  )

  All-Alive :
      (xs : List ℕ) (k k₁ : Kernel)
      → ((q : ℕ) → Alive k q → Alive k₁ q)
      → All (Alive k) xs
      → All (Alive k₁) xs
  All-Alive [] k k₁ f a = tt
  All-Alive (x ∷ xs) k k₁ f a = (f x a.0, All-Alive xs k k₁ f a.1)

  unblock_times-AllWoken :
      (xs : List ℕ) (k : Kernel)
      → (k.sems s).queue_blocked ≡ xs
      → deficit (k.sems s).val ≡ length xs
      → All (Alive k) xs
      → (k' : Kernel) × (unblock_times (length xs) cause s k ≡ some k') × AllWoken cause s xs k k'
  unfolding unblock_times
  unblock_times-AllWoken [] k e d a = (
    k,
    refl,
    record {
      queue = e;
      value = d;
      line = sym (append-nil k.queue_threads);
      statuses = tt;
      kept = λ p h. h;
      other_sems = λ t ne. refl;
    },
  )
  unblock_times-AllWoken (x ∷ xs) k e d a =
      let (k₁, ran, is, alive) = one-Woken x xs k e a.0 in
      let k₂ = set_val s (inc (k₁.sems s).val) k₁ in
      let alive₂ : (q : ℕ) → Alive k q → Alive k₂ q =
        λ q h. ((alive q h).0, unfold is_finished is_thread_valid in (alive q h).1) in
      let (k', ran', all) =
        unblock_times-AllWoken xs k₂ (ground (arith, is.queue))
          (ground (arith, is.value, deficit-inc (k₁.sems s).val, d))
          (All-Alive xs k k₂ alive₂ a.1) in
      (
        k',
        ground (arith, ran, ran'),
        record {
          queue = all.queue;
          value = all.value;
          line =
              all.line
              ∙ (ap (λ (l : List ℕ). l ++ xs) is.line ∙ append_assoc k.queue_threads (x ∷ []) xs);
          statuses = (all.kept x is.status, all.statuses);
          kept = λ p h. all.kept p (ground (arith, is.others p, is.status));
          other_sems = λ t ne. ground (arith, all.other_sems t ne, is.other_sems t ne);
        },
      )

-- `delete sem` on a semaphore whose value and queue agree and whose threads are alive: it wakes every
-- blocked thread with the answer that the semaphore is dead, in the order in which they came, leaves
-- the other semaphores alone, and frees the semaphore.
pub delete_sem-AllWoken :
    (s : ℕ) (k : Kernel)
    → BalancedAt k s
    → All (Alive k) (k.sems s).queue_blocked
    → (k' : Kernel) × (delete_sem s k ≡ some k')
      × AllWoken sem_deleted s (k.sems s).queue_blocked k k'
      × ((xs : List ℕ) × (k'.freed ≡ xs ++ s ∷ []))
unfolding delete_sem unblock_all
delete_sem-AllWoken s k b a =
    let (k₁, ran, all) =
      unblock_times-AllWoken sem_deleted refl s (k.sems s).queue_blocked k refl b a in
    (
      free s (record k₁ {
        all_semaphores = (remove_spec s k₁.all_semaphores).1;
        num_of_all_semaphores = dec64 k₁.num_of_all_semaphores;
      }),
      rw (b, ran) refl,
      record {
        queue = all.queue;
        value = all.value;
        line = all.line;
        statuses = all.statuses;
        kept = all.kept;
        other_sems = all.other_sems;
      },
      (k₁.freed, refl),
    )

-- The kernel before a thread whose time is over is roused.
abbrev pub out_of_time : ℕ → ℕ → Kernel → Kernel
out_of_time s p k =
    set_queue s (remove_spec p (k.sems s).queue_blocked).1
      (record (set_val s (inc (k.sems s).val) k) { list_asleep = (remove_spec p k.list_asleep).1 })

pub unblocked_by_time-eq :
    (s p : ℕ) (k : Kernel)
    → is_timed_waiting (k.threads p).sem_status ≡ true
    → unblocked_by_time s p k ≡ roused timeout p (out_of_time s p k)
unfolding unblocked_by_time remove_from_sleep roused
unblocked_by_time-eq s p k e = ground arith

abbrev pub TimedOut : ℕ → ℕ → Kernel → Kernel → Type 0
TimedOut s p k k' =
    BalancedAt k' s
    × (k'.queue_threads ≡ add_last k.queue_threads p)
    × (k'.list_asleep ≡ (remove_spec p k.list_asleep).1)
    × ((k'.sems s).queue_blocked ≡ (remove_spec p (k.sems s).queue_blocked).1)
    × ((k'.threads p).sem_status ≡ timeout)
    × (ready_to_run k' p ≡ true)

-- A wait whose time is over, on a semaphore whose value and queue agree: the value is increased and
-- the thread leaves the semaphore's queue, so they agree again; it leaves the sleepers and joins the
-- ready queue with the answer that its time is over.
pub unblocked_by_time_lem :
    (s p : ℕ) (k : Kernel)
    → BalancedAt k s
    → (k.threads p).sem_status ≡ timed_waiting
    → has p (k.sems s).queue_blocked ≡ true
    → Alive k p
    → TimedOut s p k (unblocked_by_time s p k)
unfolding is_finished is_thread_valid ready_to_run
unblocked_by_time_lem s p k b st inq (nz, alive) =
    let j = out_of_time s p k in
    let alive' : Alive j p = (nz, alive) in
    let at = roused-thread timeout p j alive' refl in
    let is = roused-rest timeout p j alive' refl in
    subst (TimedOut s p k) (sym (unblocked_by_time-eq s p k (ap is_timed_waiting st))) (
      ground (
        arith,
        is.0,
        b,
        deficit-inc (k.sems s).val,
        length-remove_spec p (k.sems s).queue_blocked nz inq,
      ),
      is.1,
      is.2,
      ground (arith, is.0),
      ground (arith, at p),
      ground (arith, at p),
    )

-- The fault of `tryWait`: on a semaphore with value 0 it answers that a wait would not block, and
-- decreases the value although nobody waits; the next `signal` then uses a null pointer.
pub try_wait-zero :
    (s : ℕ) (k : Kernel)
    → (k.sems s).val ≡ pos 0
    → (k.sems s).queue_blocked ≡ []
    → ((try_wait s k).0 ≡ pos 1)
      × (¬ BalancedAt (try_wait s k).1 s)
      × (signal s (try_wait s k).1 ≡ none)
unfolding try_wait signal unblock
try_wait-zero s k v q = (ground arith, ground arith, ground arith)
