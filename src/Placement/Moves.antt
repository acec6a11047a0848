-- ===== src/Placement/Moves.antt =====
-- How a change of the kernel that concerns one thread moves that thread, and no other.
use oskernel_riscv.Base.{
  ℕ, ◌≡◌, sym, ◌∙◌, subst, ◌≢◌, inl, inr, true, false, arith, ◌==◌, Bool-cases,
}
use oskernel_riscv.State.{Kernel, Thread, update, is_thread_valid, is_finished, ready_to_run}
use oskernel_riscv.Queue.Count.{count}
use oskernel_riscv.Semaphore.Wake.{Alive}
use oskernel_riscv.Placement.{
  ready_to_run, Place, no_thread, on_cpu, in_line, in_bed, held_by, held_until, seat, Fits, At,
  PlacedOn,
}

-- The fields of a thread object that its place depends on.
abbrev pub Alike : Thread → Thread → Type 0
Alike t t' =
    (t'.my_magic_number ≡ t.my_magic_number)
    × (t'.thread_state ≡ t.thread_state)
    × (t'.sem_status ≡ t.sem_status)
    × (t'.my_sem ≡ t.my_sem)

-- Nothing that concerns the thread `p` has changed.
pub record Still (c : ℕ) (k : Kernel) (c' : ℕ) (k' : Kernel) (p : ℕ) : Type 0 where
  pub seat_same : seat c' p ≡ seat c p
  pub line_same : count p k'.queue_threads ≡ count p k.queue_threads
  pub bed_same : count p k'.list_asleep ≡ count p k.list_asleep
  pub held_same : (s : ℕ) → count p (k'.sems s).queue_blocked ≡ count p (k.sems s).queue_blocked
  pub alike : Alike (k.threads p) (k'.threads p)

pub Alive-Alike :
    (k k' : Kernel) (p : ℕ) → Alike (k.threads p) (k'.threads p) → Alive k p → Alive k' p
unfolding is_finished is_thread_valid
Alive-Alike k k' p (m, f, s, q) (nz, a) = (nz, ground arith)

pub Fits-Alike :
    (k k' : Kernel) (p : ℕ) (x : Place)
    → Alike (k.threads p) (k'.threads p)
    → Fits k p x
    → Fits k' p x
unfolding is_thread_valid ready_to_run
Fits-Alike k k' p no_thread a f = ground arith
Fits-Alike k k' p on_cpu a f = (Alive-Alike k k' p a f.0, ground arith, ground (arith, f.2))
Fits-Alike k k' p in_line a f = (Alive-Alike k k' p a f.0, ground arith)
Fits-Alike k k' p in_bed a f = (Alive-Alike k k' p a f.0, ground arith)
Fits-Alike k k' p (held_by s) a f = (Alive-Alike k k' p a f.0, ground arith, ground arith, f.3)
Fits-Alike k k' p (held_until s) a f = (Alive-Alike k k' p a f.0, ground arith, ground arith, f.3)

pub Still-At :
    (c c' : ℕ) (k k' : Kernel) (p : ℕ) (x : Place) → Still c k c' k' p → At c k p x → At c' k' p x
Still-At c c' k k' p x s a = record {
  seated = s.seat_same ∙ a.seated;
  lined = s.line_same ∙ a.lined;
  bedded = s.bed_same ∙ a.bedded;
  held = λ t. s.held_same t ∙ a.held t;
  fits = Fits-Alike k k' p x s.alike a.fits;
}

-- One thread moves to a place, and the others stay where they are.
pub Placed-move :
    (c c' : ℕ) (k k' : Kernel) (places : ℕ → Place) (p : ℕ) (x : Place)
    → PlacedOn c k places
    → At c' k' p x
    → ((q : ℕ) → q ≢ p → Still c k c' k' q)
    → PlacedOn c' k' (update places p x)
Placed-move c c' k k' places p x all one rest q = elim (Bool-cases (q == p)) [
  | inl e ↦
      let same : q ≡ p = ground arith in
      subst (λ y. At c' k' q y) (sym (moved e)) (subst (λ r. At c' k' r x) (sym same) one)
  | inr e ↦
      subst (λ y. At c' k' q y) (sym (kept e))
        (Still-At c c' k k' q (places q) (rest q (ground arith)) (all q))
]
  where
    moved : (q == p) ≡ true → update places p x q ≡ x
    moved e = rw e

    kept : (q == p) ≡ false → update places p x q ≡ places q
    kept e = rw e

-- All threads stay where they are.
pub Placed-stay :
    (c c' : ℕ) (k k' : Kernel) (places : ℕ → Place)
    → PlacedOn c k places
    → ((q : ℕ) → Still c k c' k' q)
    → PlacedOn c' k' places
Placed-stay c c' k k' places all rest q = Still-At c c' k k' q (places q) (rest q) (all q)

-- One thread changes, but not its place.
pub Placed-self :
    (c c' : ℕ) (k k' : Kernel) (places : ℕ → Place) (p : ℕ)
    → PlacedOn c k places
    → At c' k' p (places p)
    → ((q : ℕ) → q ≢ p → Still c k c' k' q)
    → PlacedOn c' k' places
Placed-self c c' k k' places p all one rest q = elim (Bool-cases (q == p)) [
  | inl e ↦ let same : q ≡ p = ground arith in subst (λ r. At c' k' r (places r)) (sym same) one
  | inr e ↦ Still-At c c' k k' q (places q) (rest q (ground arith)) (all q)
]

pub Placed-eq :
    (c : ℕ) (k : Kernel) (f g : ℕ → Place) → ((q : ℕ) → f q ≡ g q) → PlacedOn c k f → PlacedOn c k g
Placed-eq c k f g e all q = subst (λ x. At c k q x) (e q) (all q)
