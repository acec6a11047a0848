-- ===== src/Semaphore/Balance.antt =====
-- The value of a semaphore counts the threads that it blocks: below zero it is minus their number.
use oskernel_riscv.Base.{
  ℕ, zero, suc, ◌-◌, ◌≡◌, refl, subst, inl, inr, true, false, Option, none, some, [], ◌∷◌, arith,
  ◌>>=◌, Bool-cases, length, length-append,
}
use oskernel_riscv.Base.Int.{ℤ, pos, negsuc, dec, inc, is_neg}
use oskernel_riscv.State.{
  Resume, started, yielded, preempted, exited, slept, blocked, getting, timed_blocked, Kernel,
  set_thread_state, set_time_for_waking_up, set_my_sem, set_threads_sem_status,
}
use oskernel_riscv.Scheduler.{dispatch}
use oskernel_riscv.Semaphore.{
  sem_didnt_wait, insert_asleep, insert_ordered, set_val, generate_wait_responses, Reply, returns,
  resume_as, resume, reschedule, block, timed_block, wait_as, wait, timed_wait, deficit,
}
use oskernel_riscv.Scheduler.Dispatch.{dispatch-SameRest}

abbrev pub BalancedAt : Kernel → ℕ → Type 0
BalancedAt k s = deficit (k.sems s).val ≡ length (k.sems s).queue_blocked

abbrev pub Balanced : Kernel → Type 0
Balanced k = (s : ℕ) → BalancedAt k s

deficit-dec : (v : ℤ) → is_neg (dec v) ≡ true → deficit (dec v) ≡ suc (deficit v)
deficit-dec (pos zero) h = refl
deficit-dec (pos (suc n)) h = ground arith
deficit-dec (negsuc n) h = refl

deficit-dec_pos : (v : ℤ) → is_neg (dec v) ≡ false → deficit (dec v) ≡ deficit v
deficit-dec_pos (pos zero) h = ground arith
deficit-dec_pos (pos (suc n)) h = refl
deficit-dec_pos (negsuc n) h = ground arith

pub deficit-inc : (v : ℤ) → deficit (inc v) ≡ deficit v - 1
deficit-inc (pos n) = refl
deficit-inc (negsuc zero) = refl
deficit-inc (negsuc (suc n)) = omega arith

-- Values and queues of all semaphores are the same.
abbrev pub SameSems : Kernel → Kernel → Type 0
SameSems k k' =
    (s : ℕ)
    → ((k'.sems s).val ≡ (k.sems s).val) × ((k'.sems s).queue_blocked ≡ (k.sems s).queue_blocked)

pub Balanced-same : (k k' : Kernel) → SameSems k k' → Balanced k → Balanced k'
Balanced-same k k' same b s = ground (arith, same s, b s)

resume_as-same : (c : Resume) (k : Kernel) → SameSems k (resume_as c k).1
unfolding resume_as generate_wait_responses set_my_sem set_time_for_waking_up set_thread_state
    set_threads_sem_status
resume_as-same started k s = (refl, refl)
resume_as-same yielded k s = (refl, refl)
resume_as-same preempted k s = (refl, refl)
resume_as-same exited k s = (refl, refl)
resume_as-same slept k s = ground arith
resume_as-same (blocked t) k s = ground arith
resume_as-same (getting t) k s = ground arith
resume_as-same (timed_blocked t) k s = ground arith

pub reschedule-Balanced :
    (c : Resume) (k k' : Kernel) (r : Reply)
    → reschedule c k ≡ some (r, k')
    → Balanced k
    → Balanced k'
unfolding reschedule
reschedule-Balanced c k k' r e b = go (dispatch c k) refl e
  where
    go :
        (o : Option Kernel)
        → dispatch c k ≡ o
        → (o >>= λ k₁. some (resume k₁)) ≡ some (r, k')
        → Balanced k'
    go none d e = cc
    go (some k₁) d e =
        let same = dispatch-SameRest c k k₁ d in
        let b₁ : Balanced k₁ = λ s. ground (arith, same.sems, b s) in
        let b₂ =
          Balanced-same k₁ (resume k₁).1 (resume_as-same (k₁.threads k₁.current).context k₁) b₁ in
        let same_end : (resume k₁).1 ≡ k' = ground arith in subst (λ j. Balanced j) same_end b₂

-- A thread that is added to the queue of a semaphore whose value was decreased below zero.
block-Balanced :
    (s : ℕ) (k : Kernel)
    → is_neg (dec (k.sems s).val) ≡ true
    → Balanced k
    → Balanced (block s (set_val s (dec (k.sems s).val) k))
unfolding block set_my_sem set_threads_sem_status
block-Balanced s k neg b t = ground (
  arith,
  b t,
  b s,
  deficit-dec (k.sems s).val,
  length-append (k.sems s).queue_blocked (k.current ∷ []),
)

timed_block-Balanced :
    (s max_time : ℕ) (k : Kernel)
    → is_neg (dec (k.sems s).val) ≡ true
    → Balanced k
    → Balanced (timed_block s max_time (set_val s (dec (k.sems s).val) k))
unfolding timed_block set_my_sem set_threads_sem_status set_time_for_waking_up insert_ordered
    insert_asleep
timed_block-Balanced s max_time k neg b t = ground (
  arith,
  b t,
  b s,
  deficit-dec (k.sems s).val,
  length-append (k.sems s).queue_blocked (k.current ∷ []),
)

pass-Balanced :
    (s : ℕ) (k : Kernel)
    → is_neg (dec (k.sems s).val) ≡ false
    → Balanced k
    → Balanced (set_val s (dec (k.sems s).val) k)
pass-Balanced s k pos_val b t = ground (arith, b t, b s, deficit-dec_pos (k.sems s).val)

pub wait_as-Balanced :
    (c : Resume) (q : Reply) (s : ℕ) (k k' : Kernel) (r : Reply)
    → Balanced k
    → wait_as c q s k ≡ some (r, k')
    → Balanced k'
unfolding wait_as
wait_as-Balanced c q s k k' r b e = elim (Bool-cases (is_neg (dec (k.sems s).val))) [
  | inl neg ↦
      reschedule-Balanced c (block s (set_val s (dec (k.sems s).val) k)) k' r
        (rw (neg, wait_as) at e) (block-Balanced s k neg b)
  | inr enough ↦
      let same : set_val s (dec (k.sems s).val) k ≡ k' = ground arith in
      subst (λ j. Balanced j) same (pass-Balanced s k enough b)
]

-- `wait` keeps every semaphore's value and queue in balance, whether the thread passes or blocks and
-- another thread runs.
pub wait-Balanced :
    (s : ℕ) (k k' : Kernel) (r : Reply) → Balanced k → wait s k ≡ some (r, k') → Balanced k'
unfolding wait
wait-Balanced s k k' r b e = wait_as-Balanced (blocked s) (returns sem_didnt_wait) s k k' r b e

-- `timedWait` keeps every semaphore's value and queue in balance, whether the thread passes or blocks
-- and another thread runs.
pub timed_wait-Balanced :
    (s max_time : ℕ) (k k' : Kernel) (r : Reply)
    → Balanced k
    → timed_wait s max_time k ≡ some (r, k')
    → Balanced k'
unfolding timed_wait
timed_wait-Balanced s max_time k k' r b e = elim (Bool-cases (is_neg (dec (k.sems s).val))) [
  | inl neg ↦
      reschedule-Balanced (timed_blocked s)
        (timed_block s max_time (set_val s (dec (k.sems s).val) k)) k' r (rw (neg, timed_wait) at e)
        (timed_block-Balanced s max_time k neg b)
  | inr enough ↦
      let same : set_val s (dec (k.sems s).val) k ≡ k' = ground arith in
      subst (λ j. Balanced j) same (pass-Balanced s k enough b)
]
