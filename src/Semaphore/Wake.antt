-- ===== src/Semaphore/Wake.antt =====
-- What `signal`, the time limit and the end of a semaphore do to the threads that wait on it.
use oskernel_riscv.Base.{
  ℕ, ◌≡◌, refl, ap, ◌≢◌, inl, inr, true, false, some, List, [], ◌∷◌, arith, ◌==◌, if◌then◌else◌,
  Bool-cases, length,
}
use oskernel_riscv.Base.Int.{ℤ, pos, negsuc, inc}
use oskernel_riscv.Queue.{add_last, remove_spec}
use oskernel_riscv.State.{
  running, ready, SemStatus, regularly_waited, Kernel, is_timed_waiting, is_wait, update,
  is_thread_valid, is_finished, ready_to_run, set_my_sem, set_threads_sem_status,
}
use oskernel_riscv.Scheduler.{put}
use oskernel_riscv.Semaphore.{remove_from_sleep, set_val, set_queue, unblock, signal}
use oskernel_riscv.Semaphore.Balance.{BalancedAt, deficit-inc}

-- A thread object that is in use and not finished.
abbrev pub Alive : Kernel → ℕ → Type 0
Alive k p = (p ≢ 0) × (is_finished k p ≡ false)

-- How a woken thread stands in the kernel `k'`, by the cause: last in the ready queue, off the
-- semaphore, with the cause as its status.
pub record Woken (cause : SemStatus) (s p : ℕ) (rest : List ℕ) (k k' : Kernel) : Type 0 where
  pub queue : (k'.sems s).queue_blocked ≡ rest
  pub value : (k'.sems s).val ≡ (k.sems s).val
  pub line : k'.queue_threads ≡ add_last k.queue_threads p
  pub status : (k'.threads p).sem_status ≡ cause
  pub unbound : (k'.threads p).my_sem ≡ 0
  pub runnable : ready_to_run k' p ≡ true
  pub asleep : k'.list_asleep ≡ (
      if is_timed_waiting (k.threads p).sem_status
      then (remove_spec p k.list_asleep).1
      else k.list_asleep)
  pub others : (q : ℕ) → q ≢ p → k'.threads q ≡ k.threads q
  pub other_sems : (t : ℕ) → t ≢ s → k'.sems t ≡ k.sems t
  pub same_current : k'.current ≡ k.current

-- The last steps of every waking: off the semaphore, the new status, the ready queue.
unfoldable pub roused : SemStatus → ℕ → Kernel → Kernel
roused cause p k = put p (set_threads_sem_status cause p (set_my_sem 0 p k))

module _ (cause : SemStatus) (p : ℕ) (k : Kernel) (alive : Alive k p)
    (w : is_wait cause ≡ false) where
  pub roused-thread :
      (q : ℕ)
      → (roused cause p k).threads q ≡ (
          if q == p
          then record (k.threads p) {
            my_sem = 0;
            sem_status = cause;
            thread_state = (if k.current == p then running else ready);
          }
          else k.threads q)
  unfolding roused put set_my_sem set_threads_sem_status is_finished is_thread_valid
  roused-thread q = ground arith

  pub roused-rest :
      ((roused cause p k).sems ≡ k.sems)
      × ((roused cause p k).queue_threads ≡ add_last k.queue_threads p)
      × ((roused cause p k).list_asleep ≡ k.list_asleep)
      × ((roused cause p k).current ≡ k.current)
  unfolding roused put set_my_sem set_threads_sem_status
  roused-rest = ground arith

-- The sleepers once the thread is woken, and the kernel before the thread's own fields are set.
abbrev pub sleepers : ℕ → Kernel → List ℕ
sleepers p k =
    if is_timed_waiting (k.threads p).sem_status
    then (remove_spec p k.list_asleep).1
    else k.list_asleep

abbrev pub unqueued : ℕ → ℕ → List ℕ → Kernel → Kernel
unqueued s p rest k = record (set_queue s rest k) { list_asleep = sleepers p k }

abbrev pub woken : SemStatus → ℕ → ℕ → List ℕ → Kernel → Kernel
woken cause s p rest k = roused cause p (unqueued s p rest k)

pub unblock-eq :
    (cause : SemStatus) (s p : ℕ) (rest : List ℕ) (k : Kernel)
    → (k.sems s).queue_blocked ≡ p ∷ rest
    → p ≢ 0
    → unblock cause s k ≡ some (woken cause s p rest k)
unfolding unblock roused remove_from_sleep
unblock-eq cause s p rest k e nz = elim (Bool-cases (is_timed_waiting (k.threads p).sem_status)) [
  | inl t ↦ ground arith
  | inr t ↦ ground arith
]

module _ (cause : SemStatus) (s p : ℕ) (rest : List ℕ) (k : Kernel) (alive : Alive k p)
    (w : is_wait cause ≡ false) where
  alive' : Alive (unqueued s p rest k) p
  unfolding is_finished is_thread_valid
  alive' = alive

  woken-thread :
      (q : ℕ)
      → (woken cause s p rest k).threads q ≡ (
          if q == p
          then record (k.threads p) {
            my_sem = 0;
            sem_status = cause;
            thread_state = (if k.current == p then running else ready);
          }
          else k.threads q)
  woken-thread q = roused-thread cause p (unqueued s p rest k) alive' w q

  woken-rest :
      ((woken cause s p rest k).sems ≡ update k.sems s (record (k.sems s) { queue_blocked = rest }))
      × ((woken cause s p rest k).queue_threads ≡ add_last k.queue_threads p)
      × ((woken cause s p rest k).list_asleep ≡ sleepers p k)
      × ((woken cause s p rest k).current ≡ k.current)
  woken-rest = roused-rest cause p (unqueued s p rest k) alive' w

  pub woken-Woken : Woken cause s p rest k (woken cause s p rest k)
  unfolding ready_to_run
  woken-Woken =
      let same = woken-rest in
      record {
        queue = ground (arith, same.0);
        value = ground (arith, same.0);
        line = same.1;
        status = ground (arith, woken-thread p);
        unbound = ground (arith, woken-thread p);
        runnable = ground (arith, woken-thread p);
        asleep = same.2;
        others = λ q ne. ground (arith, woken-thread q);
        other_sems = λ t ne. ground (arith, same.0);
        same_current = same.3;
      }

  -- Whoever was alive still is.
  pub woken-Alive : (q : ℕ) → Alive k q → Alive (woken cause s p rest k) q
  unfolding is_finished is_thread_valid
  woken-Alive q (nz, a) = (nz, ground (arith, woken-thread q))

-- `signal` on a semaphore whose value and queue agree. Without a blocked thread it returns 0 and only
-- increases the value.
pub signal-free :
    (s : ℕ) (k : Kernel)
    → BalancedAt k s
    → (k.sems s).queue_blocked ≡ []
    → signal s k ≡ some (pos 0, set_val s (inc (k.sems s).val) k)
unfolding signal
signal-free s k b e = free_case (k.sems s).val refl
  where
    free_case :
        (v : ℤ) → (k.sems s).val ≡ v → signal s k ≡ some (pos 0, set_val s (inc (k.sems s).val) k)
    free_case (pos n) h = ground arith
    free_case (negsuc n) h = absurd (ground (arith, ap length e))

pub signal-woken :
    (s p : ℕ) (rest : List ℕ) (k : Kernel)
    → BalancedAt k s
    → (k.sems s).queue_blocked ≡ p ∷ rest
    → p ≢ 0
    → signal s k ≡ some (pos 1, woken regularly_waited s p rest (set_val s (inc (k.sems s).val) k))
unfolding signal
signal-woken s p rest k b e nz = waking (k.sems s).val refl (ground arith)
  where
    waking :
        (v : ℤ)
        → (k.sems s).val ≡ v
        → ((set_val s (inc (k.sems s).val) k).sems s).queue_blocked ≡ p ∷ rest
        → signal s k
          ≡ some (pos 1, woken regularly_waited s p rest (set_val s (inc (k.sems s).val) k))
    waking (pos n) h e₁ = absurd (ground (arith, ap length e))
    waking (negsuc n) h e₁ =
        ground
          (arith, unblock-eq regularly_waited s p rest (set_val s (inc (k.sems s).val) k) e₁ nz)

-- On a semaphore whose value and queue agree, with blocked threads, of which the first is alive,
-- `signal` returns 1, increases the value and
-- wakes that first thread, the one that has waited longest, and no other: it leaves the semaphore's
-- queue and the list of sleepers, and joins the end of the ready queue as regularly waited.
pub signal-wakes :
    (s p : ℕ) (rest : List ℕ) (k : Kernel)
    → BalancedAt k s
    → (k.sems s).queue_blocked ≡ p ∷ rest
    → Alive k p
    → (k' : Kernel) × (signal s k ≡ some (pos 1, k'))
      × Woken regularly_waited s p rest (set_val s (inc (k.sems s).val) k) k'
      × BalancedAt k' s
signal-wakes s p rest k b e alive =
    let k₁ = set_val s (inc (k.sems s).val) k in
    let e₁ : (k₁.sems s).queue_blocked ≡ p ∷ rest = ground arith in
    let alive₁ : Alive k₁ p = (alive.0, unfold is_finished is_thread_valid in alive.1) in
    let is = woken-Woken regularly_waited s p rest k₁ alive₁ refl in
    (
      woken regularly_waited s p rest k₁,
      signal-woken s p rest k b e alive.0,
      is,
      ground (arith, is.queue, is.value, deficit-inc (k.sems s).val, b, ap length e),
    )
