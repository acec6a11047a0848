-- ===== src/Boot/Start.antt =====
-- The start of the kernel leads to a sound state.
use oskernel_riscv.Base.{
  append_assoc, append-nil, ◌++◌, ℕ, ◌≡◌, refl, sym, ap, ◌∙◌, subst, ◌≢◌, inl, Bool, true, false,
  List, [], ◌∷◌, arith, ◌==◌, if◌then◌else◌,
}
use oskernel_riscv.State.{Kernel, is_thread_valid, is_finished, ready_to_run, update}
use oskernel_riscv.Queue.Count.{count}
use oskernel_riscv.Scheduler.{construct_thread, enlist, adopt, take_seat, number, count_system}
use oskernel_riscv.Semaphore.Balance.{Balanced}
use oskernel_riscv.Placement.{Place, no_thread, on_cpu, in_line, At, Placed}
use oskernel_riscv.Placement.Waking.{released}
use oskernel_riscv.Placement.Making.{create-Placed}
use oskernel_riscv.Placement.Ends.{released_busy}
use oskernel_riscv.Placement.Events.{Sound}
use oskernel_riscv.Placement.Balance.{Balanced-sems}
use oskernel_riscv.Boot.{Made, create_all, start}

-- The kernel before `main`: no thread runs, waits or sleeps, and no address holds a thread.
pub record Blank (k : Kernel) : Type 0 where
  pub nobody_runs : k.current ≡ 0
  pub nobody_ready : k.queue_threads ≡ []
  pub nobody_sleeps : k.list_asleep ≡ []
  pub nobody_waits : (s : ℕ) → (k.sems s).queue_blocked ≡ []
  pub no_threads : (p : ℕ) → is_thread_valid k p ≡ false
  pub balanced : Balanced k

abbrev pub alone : ℕ → ℕ → Place
alone main p = if p == main then on_cpu else no_thread

-- The kernel while no thread runs.
abbrev idle : Kernel → Kernel
idle k = record k { current = 0 }

idle-same : (k : Kernel) → k.current ≡ 0 → idle k ≡ k
idle-same k e = ap (λ c. record k { current = c }) (sym e)

main-At :
    (main stack_space : ℕ) (k : Kernel) (p : ℕ) (b : Bool)
    → Blank k
    → main ≢ 0
    → (p == main) ≡ b
    → At main (construct_thread main 0 0 stack_space (idle k)) p (if b then on_cpu else no_thread)
unfolding construct_thread enlist adopt take_seat number count_system is_thread_valid is_finished
    ready_to_run
main-At main stack_space k p true is real e =
    let same : p ≡ main = ground arith in
    record {
      seated = ground (arith, same, real);
      lined = ap (count p) is.nobody_ready;
      bedded = ap (count p) is.nobody_sleeps;
      held = λ s. ap (count p) (is.nobody_waits s);
      fits = (
        (λ z. real (sym same ∙ z), ground (arith, same, e)),
        ground (arith, same, e),
        ground (arith, same, e),
      );
    }
main-At main stack_space k p false is real e = record {
  seated = ground (arith, e, real);
  lined = ap (count p) is.nobody_ready;
  bedded = ap (count p) is.nobody_sleeps;
  held = λ s. ap (count p) (is.nobody_waits s);
  fits = ground (arith, e, is.no_threads p);
}

main-Placed :
    (main stack_space : ℕ) (k : Kernel)
    → Blank k
    → main ≢ 0
    → let k' = construct_thread main 0 0 stack_space k in
      Placed k' (alone main) × (k'.current ≡ main) × (k'.queue_threads ≡ []) × Balanced k'
unfolding construct_thread enlist adopt take_seat number count_system
main-Placed main stack_space k is real =
    subst
      (λ j.
        let k' = construct_thread main 0 0 stack_space j in
        Placed k' (alone main) × (k'.current ≡ main) × (k'.queue_threads ≡ []) × Balanced k')
      (idle-same k is.nobody_runs)
      (
        λ p. main-At main stack_space k p (p == main) is real refl,
        refl,
        is.nobody_ready,
        Balanced-sems k (construct_thread main 0 0 stack_space (idle k)) refl is.balanced,
      )

-- The threads to be made: each with a body, at free addresses of their own.
abbrev pub Makeable : (ℕ → Place) → List Made → Type 0
Makeable places [] = Unit {0}
Makeable places (t ∷ ts) =
    (t.at ≢ 0) × (t.body ≢ 0) × (places t.at ≡ no_thread) × Makeable (update places t.at in_line) ts

abbrev pub addresses : List Made → List ℕ
addresses [] = []
addresses (t ∷ ts) = t.at ∷ addresses ts

create_all-Placed :
    (ts : List Made) (k : Kernel) (places : ℕ → Place)
    → Placed k places
    → k.current ≢ 0
    → Makeable places ts
    → ((create_all ts k).queue_threads ≡ k.queue_threads ++ addresses ts)
      × ((create_all ts k).current ≡ k.current)
      × ((create_all ts k).sems ≡ k.sems)
      × Placed (create_all ts k) (released (addresses ts) places)
unfolding create_all
create_all-Placed [] k places all nz ok = (sym (append-nil k.queue_threads), refl, refl, all)
create_all-Placed (t ∷ ts) k places all nz (real, code, free, rest) =
    let k₁ = construct_thread t.at t.body 0 t.stack_space k in
    let (line, cur, sems, all₁) =
      create-Placed t.at t.body 0 t.stack_space k real code places all nz free in
    let (line₂, cur₂, sems₂, all₂) =
      create_all-Placed ts k₁ (update places t.at in_line) all₁ (λ e. nz (sym cur ∙ e)) rest in
    (
      line₂
          ∙ (ap (λ (l : List ℕ). l ++ addresses ts) line
              ∙ append_assoc k.queue_threads (t.at ∷ []) (addresses ts)),
      cur₂ ∙ cur,
      sems₂ ∙ sems,
      all₂,
    )

-- `main` starts a sound system from a kernel without threads: the thread of `main` runs, and the threads that
-- it made, each with a body and at a free address, wait in the ready queue in the order in which they
-- were made.
pub start-Sound :
    (main stack_space : ℕ) (ts : List Made) (k : Kernel)
    → Blank k
    → main ≢ 0
    → Makeable (alone main) ts
    → ((start main stack_space ts k).queue_threads ≡ addresses ts)
      × ((start main stack_space ts k).current ≡ main)
      × Sound main (start main stack_space ts k)
unfolding start
start-Sound main stack_space ts k is real ok =
    let k₁ = construct_thread main 0 0 stack_space k in
    let (all, cur, line, fair) = main-Placed main stack_space k is real in
    let runs : k₁.current ≢ 0 = λ e. real (sym cur ∙ e) in
    let alone_is : alone main main ≡ on_cpu = ground arith in
    let (line₂, cur₂, sems₂, all₂) = create_all-Placed ts k₁ (alone main) all runs ok in
    (
      line₂ ∙ ap (λ (l : List ℕ). l ++ addresses ts) line,
      cur₂ ∙ cur,
      record {
        places = released (addresses ts) (alone main);
        placed = all₂;
        balanced = Balanced-sems k₁ (create_all ts k₁) sems₂ fair;
        runs = λ e. runs (sym cur₂ ∙ e);
        busy = released_busy main (addresses ts) (alone main) (inl alone_is);
      },
    )
