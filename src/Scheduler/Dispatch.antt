-- ===== src/Scheduler/Dispatch.antt =====
-- `dispatch` on its branches: the round robin, the threads it deletes, and what it leaves alone.
use oskernel_riscv.Base.{
  ℕ, ◌≡◌, refl, sym, ap, ◌∙◌, subst, ◌≢◌, inl, inr, Bool, true, false, Option, none, some, List, [],
  ◌∷◌, arith, if◌then◌else◌, Bool-cases, if_both,
}
use oskernel_riscv.Queue.{add_last, foreach_while}
use oskernel_riscv.State.{
  running, Resume, Kernel, update, put_thread, is_thread_valid, is_finished, ready_to_run,
}
use oskernel_riscv.Scheduler.{
  put, get, disable_thread, delete_thread, thread_dead, delete_thread_in_dispatch, retire, bury,
  elect, dispatch,
}
use oskernel_riscv.Queue.Laws.{foreach_while_inv, NoNull, drop_while, All-append, remove_spec-cons}

-- The parts of the kernel that `dispatch` does not touch.
pub record SameRest (k k' : Kernel) : Type 0 where
  pub sems : k'.sems ≡ k.sems
  pub asleep : k'.list_asleep ≡ k.list_asleep
  pub num_asleep : k'.num_of_threads_asleep ≡ k.num_of_threads_asleep
  pub time : k'.sys_time ≡ k.sys_time
  pub ids : k'.last_id ≡ k.last_id

delete-SameRest : (k j : Kernel) (p : ℕ) → SameRest k j → SameRest k (delete_thread_in_dispatch j p)
unfolding delete_thread_in_dispatch delete_thread disable_thread
delete-SameRest k j p s = ground arith

bury-SameRest : (k j : Kernel) → SameRest k j → SameRest k (bury j)
unfolding bury
bury-SameRest k j s =
    foreach_while_inv (SameRest k) thread_dead delete_thread_in_dispatch
      (λ i p _ s'. delete-SameRest k i p s') j.queue_threads j s

retire-SameRest : (k : Kernel) (p : ℕ) → SameRest k (retire p k)
unfolding retire put delete_thread disable_thread
retire-SameRest k p = ground arith

elect-SameRest :
    (c : Resume) (p : ℕ) (k j k' : Kernel) → elect c p j ≡ some k' → SameRest k j → SameRest k k'
unfolding elect get
elect-SameRest c p k j k' e s = ground arith

pub dispatch-SameRest : (c : Resume) (k k' : Kernel) → dispatch c k ≡ some k' → SameRest k k'
unfolding dispatch
dispatch-SameRest c k k' e =
    elect-SameRest c k.current k (bury (retire k.current k)) k' e
      (bury-SameRest k (retire k.current k) (retire-SameRest k k.current))

-- Deleting a dead thread changes nobody's life.
delete-dead :
    (k : Kernel) (x q : ℕ)
    → thread_dead k x ≡ true
    → thread_dead (delete_thread_in_dispatch k x) q ≡ thread_dead k q
unfolding thread_dead delete_thread_in_dispatch delete_thread disable_thread is_finished
    is_thread_valid
delete-dead k x q h = ground arith

retire-dead : (k : Kernel) (p q : ℕ) → thread_dead (retire p k) q ≡ thread_dead k q
unfolding thread_dead retire put ready_to_run delete_thread disable_thread is_finished
    is_thread_valid
retire-dead k p q = ground arith

delete-queue :
    (k : Kernel) (x : ℕ) (xs : List ℕ)
    → x ≢ 0
    → k.queue_threads ≡ x ∷ xs
    → (delete_thread_in_dispatch k x).queue_threads ≡ xs
unfolding delete_thread_in_dispatch delete_thread disable_thread
delete-queue k x xs h e = ground (arith, remove_spec-cons x xs h)

bury_from :
    (k₀ : Kernel) (xs : List ℕ) (k : Kernel)
    → k.queue_threads ≡ xs
    → NoNull xs
    → ((q : ℕ) → thread_dead k q ≡ thread_dead k₀ q)
    → (foreach_while thread_dead delete_thread_in_dispatch xs k).queue_threads
      ≡ drop_while (thread_dead k₀) xs
unfolding foreach_while
bury_from k₀ [] k e n same = e
bury_from k₀ (x ∷ xs) k e n same = elim (Bool-cases (thread_dead k₀ x)) [
  | inl dead ↦
      let dead' : thread_dead k x ≡ true = same x ∙ dead in
      rw (dead, dead')
        (bury_from k₀ xs (delete_thread_in_dispatch k x) (delete-queue k x xs n.0 e) n.1
          (λ q. delete-dead k x q dead' ∙ same q))
  | inr live ↦ let live' : thread_dead k x ≡ false = same x ∙ live in rw (live, live') e
]

-- The threads that `dispatch` chooses from: the ready queue, with the running thread at its end if it
-- can run, less the dead threads at the front.
abbrev pub candidates : Kernel → List ℕ
candidates k =
    drop_while (thread_dead k)
      (if ready_to_run k k.current then add_last k.queue_threads k.current else k.queue_threads)

-- What `dispatch` gives, by the candidates.
abbrev pub Switched : Resume → Kernel → List ℕ → Option Kernel → Type 0
Switched c k [] r = r ≡ none
Switched c k (p ∷ rest) r =
    (k' : Kernel) × (r ≡ some k')
    × (k'.current ≡ p)
    × (k'.queue_threads ≡ rest)
    × ((k'.threads p).thread_state ≡ running)
    × ((k'.threads k.current).context ≡ c)
    × (k'.cpu_time ≡ 0)
    × SameRest k k'

retire-queue :
    (k : Kernel) (p : ℕ)
    → (retire p k).queue_threads
      ≡ (if ready_to_run k p then add_last k.queue_threads p else k.queue_threads)
unfolding retire put delete_thread disable_thread ready_to_run
retire-queue k p = ground arith

retire-cpu : (k : Kernel) (p : ℕ) → (retire p k).cpu_time ≡ 0
unfolding retire put delete_thread disable_thread
retire-cpu k p = ground arith

bury-cpu : (k : Kernel) → k.cpu_time ≡ 0 → (bury k).cpu_time ≡ 0
unfolding bury delete_thread_in_dispatch delete_thread disable_thread
bury-cpu k h =
    foreach_while_inv (λ j. j.cpu_time ≡ 0) thread_dead delete_thread_in_dispatch
      (λ i p _ e. ground arith) k.queue_threads k h

elect_lem :
    (c : Resume) (k j : Kernel) (xs : List ℕ)
    → j.queue_threads ≡ xs
    → NoNull xs
    → j.cpu_time ≡ 0
    → SameRest k j
    → Switched c k xs (elect c k.current j)
unfolding elect get
elect_lem c k j [] e n z s = ground arith
elect_lem c k j (p ∷ rest) e n z s =
    let k₁ = record j { queue_threads = rest } in
    let k₂ = put_thread k₁ p (record (k₁.threads p) { thread_state = running }) in
    let k' : Kernel = record k₂ {
      current = p;
      threads = update k₂.threads k.current (record (k₂.threads k.current) { context = c });
    } in
    (k', ground (arith, n.0), refl, refl, ground arith, ground arith, z, ground arith)

drop_while-NoNull : (f : ℕ → Bool) (xs : List ℕ) → NoNull xs → NoNull (drop_while f xs)
drop_while-NoNull f [] n = tt
drop_while-NoNull f (x ∷ xs) n = ground (arith, drop_while-NoNull f xs n.1)

-- `dispatch` with a running thread and a queue without null pointers: the first candidate runs next,
-- in state RUNNING, with the processor's clock reset, and the rest of the candidates stay in the
-- queue in their order; the old thread's context is saved; without a candidate a null pointer is used.
pub dispatch-Switched :
    (c : Resume) (k : Kernel)
    → k.current ≢ 0
    → NoNull k.queue_threads
    → Switched c k (candidates k) (dispatch c k)
unfolding dispatch bury
dispatch-Switched c k nz n =
    elect_lem c k (bury old_gone) (candidates k)
      (queue ∙ ap (drop_while (thread_dead k)) waiting_line)
      (drop_while-NoNull (thread_dead k) _ (subst (λ xs. NoNull xs) waiting_line all_real))
      (bury-cpu old_gone (retire-cpu k k.current))
      (bury-SameRest k old_gone (retire-SameRest k k.current))
  where
    old_gone : Kernel
    old_gone = retire k.current k

    waiting_line :
        old_gone.queue_threads
        ≡ (if ready_to_run k k.current then add_last k.queue_threads k.current else k.queue_threads)
    waiting_line = retire-queue k k.current

    all_real : NoNull old_gone.queue_threads
    all_real =
        subst (λ xs. NoNull xs) (sym waiting_line)
          (if_both NoNull (ready_to_run k k.current)
            (All-append (λ x. x ≢ 0) k.queue_threads (k.current ∷ []) n (nz, tt)) n)

    queue : (bury old_gone).queue_threads ≡ drop_while (thread_dead k) old_gone.queue_threads
    queue =
        bury_from k old_gone.queue_threads old_gone refl all_real (λ q. retire-dead k k.current q)
