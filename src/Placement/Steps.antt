-- ===== src/Placement/Steps.antt =====
-- Runs of the kernel: no event that may happen fails, and the invariant holds in every state.
use oskernel_riscv.Base.{
  append_assoc, length, ℕ, zero, suc, ◌+◌, ◌≤◌, ◌≡◌, refl, sym, ap, ◌∙◌, subst, ◌≢◌, Option, some,
  List, [], ◌∷◌, ◌++◌, arith, ◌>>=◌,
}
use oskernel_riscv.State.{Kernel, yielded, blocked, getting}
use oskernel_riscv.Semaphore.{Reply, returns, reads, sem_didnt_wait, reschedule}
use oskernel_riscv.Placement.{
  held_count, line_count, count, Place, no_thread, on_cpu, in_line, in_bed, held_by, held_until,
  seat, on_cpu_count, bed_count, At, Placed,
}
use oskernel_riscv.Placement.Reschedule.{yield-Switch}
use oskernel_riscv.Placement.Events.{
  Event, yields, ticks, leaves, waits, gets, tries, signals, closes, sleeps, waits_until, opens,
  creates, perform, Allowed, Sound,
}
use oskernel_riscv.Placement.Ends.{
  yield-Ends, timer-Ends, exit-Ends, wait-Ends, sleep-Ends, timed_wait-Ends,
}
use oskernel_riscv.Placement.Objects.{
  try_wait-Sound, signal-Ends, close-Ends, open-Ends, create-Ends,
}

-- In a sound kernel, in which every thread is at one place, one of them runs, the busy thread can always run
-- and every semaphore's value agrees with its queue, each allowed event ends without the use of a null pointer,
-- and the kernel is sound again. The events are what the system calls and the timer interrupt do to the
-- kernel's objects and lists, where every insertion into a list finds a free block for its element; an event is
-- allowed when the busy thread does not block or leave, new objects stand at free addresses, a new thread has
-- a body, a semaphore that is waited for is not null, a new value is below 2^63, and `tryWait` finds a value
-- above 0.
pub perform-Sound :
    (i : ℕ) (k : Kernel) (e : Event)
    → Sound i k
    → Allowed i k e
    → (r : Reply) × (k' : Kernel) × (perform e k ≡ some (r, k')) × Sound i k'
unfolding perform
perform-Sound i k yields is ok = yield-Ends i k is
perform-Sound i k ticks is ok = timer-Ends i k is
perform-Sound i k leaves is ok = exit-Ends i k is ok
perform-Sound i k (waits s) is ok =
    wait-Ends i k is (blocked s) (returns sem_didnt_wait) s ok.0 ok.1
perform-Sound i k (gets s) is ok = wait-Ends i k is (getting s) reads s ok.0 ok.1
perform-Sound i k (tries s) is ok = (_, _, refl, try_wait-Sound i s k ok is)
perform-Sound i k (signals s) is ok = signal-Ends i k is s
perform-Sound i k (closes s) is ok = close-Ends i k is s
perform-Sound i k (sleeps time) is ok = sleep-Ends i k is time ok
perform-Sound i k (waits_until s time) is ok = timed_wait-Ends i k is s time ok.0 ok.1
perform-Sound i k (opens s n) is ok = open-Ends i k is s n ok.0 ok.1
perform-Sound i k (creates p body arg stack_space) is ok =
    create-Ends i k is p body arg stack_space ok.0 ok.1 ok.2

-- The states that a run of allowed events reaches.
pub data Reaches (i : ℕ) (k : Kernel) : Kernel → Type 0 where
  here : Reaches i k k
  later :
      {j : Kernel}
      → Reaches i k j
      → (e : Event) (r : Reply) (k' : Kernel) → Allowed i j e
      → perform e j ≡ some (r, k')
      → Reaches i k k'

pub Reaches-Sound : (i : ℕ) (k : Kernel) {k' : Kernel} → Sound i k → Reaches i k k' → Sound i k'
Reaches-Sound i k is here = is
Reaches-Sound i k is (later {j} run e r k' ok ran) =
    let (r', j', ran', is') = perform-Sound i j e (Reaches-Sound i k is run) ok in
    let same : j' ≡ k' = ground (arith, ran, ran') in subst (Sound i) same is'

-- In every state that a sound kernel reaches by allowed events, a thread is at most once on the processor, in the
-- ready queue and in the queues of any two semaphores together, and at most once among the sleepers; and a
-- thread that runs or is ready is not among the sleepers.
pub one_place :
    (i : ℕ) (k k' : Kernel) (p s t : ℕ)
    → Sound i k
    → Reaches i k k'
    → s ≢ t
    → (seat k'.current p
          + count p k'.queue_threads
          + count p (k'.sems s).queue_blocked
          + count p (k'.sems t).queue_blocked
        ≤ 1)
      × (count p k'.list_asleep ≤ 1)
      × (seat k'.current p + count p k'.queue_threads + count p k'.list_asleep ≤ 1)
one_place i k k' p s t is run ne =
    let is' = Reaches-Sound i k is run in
    let a = is'.placed p in limits (is'.places p) a.seated a.lined (a.held s) (a.held t) a.bedded
  where
    limits :
        {c l h g b : ℕ} (x : Place)
        → c ≡ on_cpu_count x
        → l ≡ line_count x
        → h ≡ held_count x s
        → g ≡ held_count x t
        → b ≡ bed_count x
        → (c + l + h + g ≤ 1) × (b ≤ 1) × (c + l + b ≤ 1)
    limits no_thread e f u v d = (omega arith, omega arith, omega arith)
    limits on_cpu e f u v d = (omega arith, omega arith, omega arith)
    limits in_line e f u v d = (omega arith, omega arith, omega arith)
    limits in_bed e f u v d = (omega arith, omega arith, omega arith)
    limits (held_by w) e f u v d = (ground (arith, ne), omega arith, omega arith)
    limits (held_until w) e f u v d = (ground (arith, ne), omega arith, omega arith)

-- The processor is given up so many times, each time by the thread that runs.
pub yield_times : ℕ → Kernel → Option Kernel
yield_times zero k = some k
yield_times (suc n) k = reschedule yielded k >>= λ r. yield_times n r.1

-- Round robin, in a kernel that runs a thread and has every thread at its place: the thread behind `n` others in the ready queue runs once the processor has been given up
-- `n + 1` times, with the others behind it in their order.
pub turn_comes :
    (xs ys : List ℕ) (p : ℕ) (k : Kernel) (places : ℕ → Place)
    → Placed k places
    → k.current ≢ 0
    → k.queue_threads ≡ xs ++ p ∷ ys
    → (k' : Kernel) × (yield_times (suc (length xs)) k ≡ some k')
      × (k'.current ≡ p)
      × (k'.queue_threads ≡ ys ++ k.current ∷ xs)
unfolding yield_times
turn_comes [] ys p k places all nz e =
    let sw = yield-Switch k places yielded all nz in
    let heads : (p ∷ ys) ++ k.current ∷ [] ≡ sw.next ∷ sw.after.queue_threads =
      ap (λ (l : List ℕ). l ++ k.current ∷ []) (sym e) ∙ sw.front in
    (sw.after, rw sw.ran refl, sw.now_runs ∙ ground (arith, heads), ground (arith, heads))
turn_comes (x ∷ xs) ys p k places all nz e =
    let sw = yield-Switch k places yielded all nz in
    let heads : (x ∷ xs ++ p ∷ ys) ++ k.current ∷ [] ≡ sw.next ∷ sw.after.queue_threads =
      ap (λ (l : List ℕ). l ++ k.current ∷ []) (sym e) ∙ sw.front in
    let shape : sw.after.queue_threads ≡ xs ++ p ∷ (ys ++ k.current ∷ []) =
      ground (arith, heads) ∙ append_assoc xs (p ∷ ys) (k.current ∷ []) in
    let cur : sw.after.current ≡ x = sw.now_runs ∙ ground (arith, heads) in
    let first : At sw.after.current sw.after sw.next on_cpu =
      subst (At sw.after.current sw.after sw.next) (ground arith) (sw.placed sw.next) in
    let (k', ran, runs, line) =
      turn_comes xs (ys ++ k.current ∷ []) p sw.after _ sw.placed
        (λ z. first.fits.0.0 (sym sw.now_runs ∙ z)) shape in
    (
      k',
      rw sw.ran ran,
      runs,
      line
          ∙ (ap (λ (c : ℕ). (ys ++ k.current ∷ []) ++ c ∷ xs) cur
              ∙ append_assoc ys (k.current ∷ []) (x ∷ xs)),
    )
