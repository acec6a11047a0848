-- ===== src/Placement.antt =====
-- The abstract view of the kernel: at which one place each thread is. The kernel's lists, its current
-- thread and the fields of the thread objects represent it.
pub mod Moves
pub mod Switch
pub mod Reschedule
pub mod Waiting
pub mod Sleeping
pub mod Waking
pub mod Rousing
pub mod Ticking
pub mod Making
pub mod Balance
pub mod Events
pub mod Ends
pub mod Objects
pub mod Steps
use oskernel_riscv.Base.{ℕ, zero, suc, ◌≡◌, ◌≢◌, Bool, true, false, ◌==◌, if◌then◌else◌}
use oskernel_riscv.State.{
  Kernel, SemStatus, waiting, timed_waiting, is_wait, is_thread_valid, is_finished, ready_to_run,
}
use oskernel_riscv.Queue.Count.{count}
use oskernel_riscv.Semaphore.Wake.{Alive}

-- No thread; on the processor; in the ready queue; asleep; in the queue of a semaphore, for as long as it
-- takes or with a time limit, that is among the sleepers too.
pub data Place : Type 0 where
  no_thread on_cpu in_line in_bed : Place
  held_by held_until : ℕ → Place

abbrev pub on_cpu_count : Place → ℕ
on_cpu_count on_cpu = 1
on_cpu_count _ = 0

abbrev pub line_count : Place → ℕ
line_count in_line = 1
line_count _ = 0

abbrev pub bed_count : Place → ℕ
bed_count in_bed = 1
bed_count (held_until s) = 1
bed_count _ = 0

abbrev pub held_count : Place → ℕ → ℕ
held_count (held_by s) t = if s == t then 1 else 0
held_count (held_until s) t = if s == t then 1 else 0
held_count _ t = 0

-- The thread that the kernel regards as running; 0 while it switches.
abbrev pub seat : ℕ → ℕ → ℕ
seat c p = if c == 0 then 0 else if c == p then 1 else 0

-- What the fields of the object say at each place.
abbrev pub Fits : Kernel → ℕ → Place → Type 0
Fits k p no_thread = is_thread_valid k p ≡ false
Fits k p (held_by s) =
    Alive k p × ((k.threads p).sem_status ≡ waiting) × ((k.threads p).my_sem ≡ s) × (s ≢ 0)
Fits k p (held_until s) =
    Alive k p × ((k.threads p).sem_status ≡ timed_waiting) × ((k.threads p).my_sem ≡ s) × (s ≢ 0)
Fits k p on_cpu = Alive k p × (is_wait (k.threads p).sem_status ≡ false) × (ready_to_run k p ≡ true)
Fits k p _ = Alive k p × (is_wait (k.threads p).sem_status ≡ false)

-- The thread `p` is at the place `x` and nowhere else, with `c` on the processor.
pub record At (c : ℕ) (k : Kernel) (p : ℕ) (x : Place) : Type 0 where
  pub seated : seat c p ≡ on_cpu_count x
  pub lined : count p k.queue_threads ≡ line_count x
  pub bedded : count p k.list_asleep ≡ bed_count x
  pub held : (s : ℕ) → count p (k.sems s).queue_blocked ≡ held_count x s
  pub fits : Fits k p x

-- Every address is at its place.
abbrev pub PlacedOn : ℕ → Kernel → (ℕ → Place) → Type 0
PlacedOn c k places = (p : ℕ) → At c k p (places p)

abbrev pub Placed : Kernel → (ℕ → Place) → Type 0
Placed k places = PlacedOn k.current k places
