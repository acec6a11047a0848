-- ===== src/BoundedBuffer/Progress.antt =====
-- The buffer never deadlocks.
use oskernel_riscv.Base.{
  append-nil, ℕ, zero, suc, ◌+◌, ◌≡◌, refl, ap, ◌∙◌, ◌⊎◌, inl, inr, Option, none, some, List, [],
  ◌∷◌, ◌++◌, arith, length, ◌>>=◌,
}
use oskernel_riscv.BoundedBuffer.{
  Pc, outside, put_awaits_space, put_awaits_tail, put_writes, put_advances, put_leaves,
  put_announces, get_awaits_item, get_awaits_head, get_reads, get_advances, get_leaves,
  get_announces, cnt_awaits_head, cnt_awaits_tail, cnt_reads, cnt_leaves_tail, cnt_leaves_head,
  Shared, construct, act, Runs, passes,
}
use oskernel_riscv.BoundedBuffer.Invariant.{
  at_tail, at_head, has_place, has_written, has_claim, has_read, total, Good, length-append,
}
use oskernel_riscv.BoundedBuffer.Safety.{AllOutside, construct-Good, Runs-Good}

-- A thread of the list has a statement that it can execute.
abbrev pub CanMove : List Pc → Shared → Type 0
CanMove ps b =
    (xs : List Pc) × (ys : List Pc) × (p : Pc) × (q : Pc) × (b' : Shared) × (ps ≡ xs ++ p ∷ ys)
    × (act p b ≡ some (q, b'))

-- Outside, or waiting: for a place in a buffer that has all its `n` places taken, or for a value in a buffer
-- that has none.
abbrev pub Waits : ℕ → Shared → Pc → Type 0
Waits n b outside = Unit {0}
Waits n b (put_awaits_space v) = length b.written ≡ length b.taken + n
Waits n b get_awaits_item = b.written ≡ b.taken
Waits n b _ = ⊥

abbrev pub AllPcs : (Pc → Type 0) → List Pc → Type 0
AllPcs P [] = Unit {0}
AllPcs P (p ∷ ps) = P p × AllPcs P ps

all_of : (P Q : Pc → Type 0) (ps : List Pc) → ((p : Pc) → P p → Q p) → AllPcs P ps → AllPcs Q ps
all_of P Q [] f a = tt
all_of P Q (p ∷ ps) f (x, a) = (f p x, all_of P Q ps f a)

abbrev Stuck : Shared → Pc → Type 0
Stuck b p = act p b ≡ none

-- Some thread can move, or none can.
moves_or_not : (ps : List Pc) (b : Shared) → CanMove ps b ⊎ AllPcs (Stuck b) ps
moves_or_not [] b = inr tt
moves_or_not (p ∷ ps) b = tried (act p b) refl (moves_or_not ps b)
  where
    tried :
        (o : Option (Pc × Shared))
        → act p b ≡ o
        → CanMove ps b ⊎ AllPcs (Stuck b) ps
        → CanMove (p ∷ ps) b ⊎ AllPcs (Stuck b) (p ∷ ps)
    tried (some (q, b')) e others = inl ([], ps, p, q, b', refl, e)
    tried none e others = elim others [
      | inl (xs, ys, p', q, b', split, e') ↦
          inl (p ∷ xs, ys, p', q, b', ap (λ (l : List Pc). p ∷ l) split, e')
      | inr all ↦ inr (e, all)
    ]

-- A semaphore that stops a thread has the value 0.
stops : {A : Type 0} (x : ℕ) (f : ℕ → A) → (passes x >>= λ y. some (f y)) ≡ none → x ≡ 0
stops zero f e = refl
stops (suc x) f e = absurd (ground (arith, e))

-- Nobody counts where each does not.
total-none : (f : Pc → ℕ) (ps : List Pc) → AllPcs (λ p. f p ≡ 0) ps → total f ps ≡ 0
total-none f [] a = refl
total-none f (p ∷ ps) (e, a) = omega (arith, total-none f ps a)

-- No stuck thread holds `mutexTail`.
Stuck-tail : (b : Shared) (p : Pc) → Stuck b p → at_tail p ≡ 0
unfolding act
Stuck-tail b outside e = refl
Stuck-tail b (put_awaits_space v) e = refl
Stuck-tail b (put_awaits_tail v) e = refl
Stuck-tail b (put_writes v) e = absurd (ground (arith, e))
Stuck-tail b put_advances e = absurd (ground (arith, e))
Stuck-tail b put_leaves e = absurd (ground (arith, e))
Stuck-tail b put_announces e = refl
Stuck-tail b get_awaits_item e = refl
Stuck-tail b get_awaits_head e = refl
Stuck-tail b get_reads e = refl
Stuck-tail b (get_advances r) e = refl
Stuck-tail b (get_leaves r) e = refl
Stuck-tail b (get_announces r) e = refl
Stuck-tail b cnt_awaits_head e = refl
Stuck-tail b cnt_awaits_tail e = refl
Stuck-tail b cnt_reads e = absurd (ground (arith, e))
Stuck-tail b (cnt_leaves_tail r) e = absurd (ground (arith, e))
Stuck-tail b (cnt_leaves_head r) e = refl

-- Nor, with `mutexTail` free, `mutexHead`.
Stuck-head : (b : Shared) (p : Pc) → b.mutex_tail ≡ 1 → Stuck b p → at_head p ≡ 0
unfolding act
Stuck-head b outside free e = refl
Stuck-head b (put_awaits_space v) free e = refl
Stuck-head b (put_awaits_tail v) free e = refl
Stuck-head b (put_writes v) free e = refl
Stuck-head b put_advances free e = refl
Stuck-head b put_leaves free e = refl
Stuck-head b put_announces free e = refl
Stuck-head b get_awaits_item free e = refl
Stuck-head b get_awaits_head free e = refl
Stuck-head b get_reads free e = absurd (ground (arith, e))
Stuck-head b (get_advances r) free e = absurd (ground (arith, e))
Stuck-head b (get_leaves r) free e = absurd (ground (arith, e))
Stuck-head b (get_announces r) free e = refl
Stuck-head b cnt_awaits_head free e = refl
Stuck-head b cnt_awaits_tail free e =
    absurd
      (ground (arith, free, stops b.mutex_tail (λ y. (cnt_reads, record b { mutex_tail = y })) e))
Stuck-head b cnt_reads free e = absurd (ground (arith, e))
Stuck-head b (cnt_leaves_tail r) free e = absurd (ground (arith, e))
Stuck-head b (cnt_leaves_head r) free e = absurd (ground (arith, e))

-- Both mutexes free, a stuck thread waits for a place or a value.
abbrev Queued : Shared → Pc → Type 0
Queued b outside = Unit {0}
Queued b (put_awaits_space v) = b.space_available ≡ 0
Queued b get_awaits_item = b.item_available ≡ 0
Queued b _ = ⊥

Stuck-Queued :
    (b : Shared) → b.mutex_tail ≡ 1 → b.mutex_head ≡ 1 → (p : Pc) → Stuck b p → Queued b p
unfolding act
Stuck-Queued b t h outside e = tt
Stuck-Queued b t h (put_awaits_space v) e =
    stops b.space_available (λ y. (put_awaits_tail v, record b { space_available = y })) e
Stuck-Queued b t h (put_awaits_tail v) e =
    absurd
      (ground (arith, t, stops b.mutex_tail (λ y. (put_writes v, record b { mutex_tail = y })) e))
Stuck-Queued b t h (put_writes v) e = absurd (ground (arith, e))
Stuck-Queued b t h put_advances e = absurd (ground (arith, e))
Stuck-Queued b t h put_leaves e = absurd (ground (arith, e))
Stuck-Queued b t h put_announces e = absurd (ground (arith, e))
Stuck-Queued b t h get_awaits_item e =
    stops b.item_available (λ y. (get_awaits_head, record b { item_available = y })) e
Stuck-Queued b t h get_awaits_head e =
    absurd (ground (arith, h, stops b.mutex_head (λ y. (get_reads, record b { mutex_head = y })) e))
Stuck-Queued b t h get_reads e = absurd (ground (arith, e))
Stuck-Queued b t h (get_advances r) e = absurd (ground (arith, e))
Stuck-Queued b t h (get_leaves r) e = absurd (ground (arith, e))
Stuck-Queued b t h (get_announces r) e = absurd (ground (arith, e))
Stuck-Queued b t h cnt_awaits_head e =
    absurd (
      ground (arith, h, stops b.mutex_head (λ y. (cnt_awaits_tail, record b { mutex_head = y })) e))
Stuck-Queued b t h cnt_awaits_tail e =
    absurd (ground (arith, t, stops b.mutex_tail (λ y. (cnt_reads, record b { mutex_tail = y })) e))
Stuck-Queued b t h cnt_reads e = absurd (ground (arith, e))
Stuck-Queued b t h (cnt_leaves_tail r) e = absurd (ground (arith, e))
Stuck-Queued b t h (cnt_leaves_head r) e = absurd (ground (arith, e))

-- A queued thread is between no two statements that count.
Queued-free :
    (b : Shared) (p : Pc)
    → Queued b p
    → (has_place p ≡ 0) × (has_read p ≡ 0) × (has_written p ≡ 0) × (has_claim p ≡ 0)
Queued-free b outside e = (refl, refl, refl, refl)
Queued-free b (put_awaits_space v) e = (refl, refl, refl, refl)
Queued-free b (put_awaits_tail v) e = absurd e
Queued-free b (put_writes v) e = absurd e
Queued-free b put_advances e = absurd e
Queued-free b put_leaves e = absurd e
Queued-free b put_announces e = absurd e
Queued-free b get_awaits_item e = (refl, refl, refl, refl)
Queued-free b get_awaits_head e = absurd e
Queued-free b get_reads e = absurd e
Queued-free b (get_advances r) e = absurd e
Queued-free b (get_leaves r) e = absurd e
Queued-free b (get_announces r) e = absurd e
Queued-free b cnt_awaits_head e = absurd e
Queued-free b cnt_awaits_tail e = absurd e
Queued-free b cnt_reads e = absurd e
Queued-free b (cnt_leaves_tail r) e = absurd e
Queued-free b (cnt_leaves_head r) e = absurd e

Queued-Waits :
    (n : ℕ) (b : Shared)
    → (b.space_available ≡ 0 → length b.written ≡ length b.taken + n)
    → (b.item_available ≡ 0 → b.written ≡ b.taken)
    → (p : Pc) → Queued b p
    → Waits n b p
Queued-Waits n b full empty outside e = tt
Queued-Waits n b full empty (put_awaits_space v) e = full e
Queued-Waits n b full empty (put_awaits_tail v) e = absurd e
Queued-Waits n b full empty (put_writes v) e = absurd e
Queued-Waits n b full empty put_advances e = absurd e
Queued-Waits n b full empty put_leaves e = absurd e
Queued-Waits n b full empty put_announces e = absurd e
Queued-Waits n b full empty get_awaits_item e = empty e
Queued-Waits n b full empty get_awaits_head e = absurd e
Queued-Waits n b full empty get_reads e = absurd e
Queued-Waits n b full empty (get_advances r) e = absurd e
Queued-Waits n b full empty (get_leaves r) e = absurd e
Queued-Waits n b full empty (get_announces r) e = absurd e
Queued-Waits n b full empty cnt_awaits_head e = absurd e
Queued-Waits n b full empty cnt_awaits_tail e = absurd e
Queued-Waits n b full empty cnt_reads e = absurd e
Queued-Waits n b full empty (cnt_leaves_tail r) e = absurd e
Queued-Waits n b full empty (cnt_leaves_head r) e = absurd e

nothing_after : (xs ys : List ℕ) → length ys ≡ 0 → xs ++ ys ≡ xs
nothing_after xs [] e = append-nil xs
nothing_after xs (y ∷ ys) e = absurd (omega arith)

module _ (n : ℕ) (ps : List Pc) (b : Shared) (g : Good (λ f. total f ps) b)
    (cap : b.cap ≡ n + 1) where
  all_wait : AllPcs (Stuck b) ps → AllPcs (Waits n b) ps
  all_wait stuck =
      let tails =
        total-none at_tail ps (all_of (Stuck b) (λ p. at_tail p ≡ 0) ps (Stuck-tail b) stuck) in
      let t : b.mutex_tail ≡ 1 = omega (arith, g.one_at_tail) in
      let heads =
        total-none at_head ps
          (all_of (Stuck b) (λ p. at_head p ≡ 0) ps (λ p. Stuck-head b p t) stuck) in
      let h : b.mutex_head ≡ 1 = omega (arith, g.one_at_head) in
      let queued = all_of (Stuck b) (Queued b) ps (Stuck-Queued b t h) stuck in
      let count = λ (f : Pc → ℕ) (k : (p : Pc) → Queued b p → f p ≡ 0).
        total-none f ps (all_of (Queued b) (λ p. f p ≡ 0) ps k queued) in
      let c₁ = count has_place (λ p e. (Queued-free b p e).0) in
      let c₂ = count has_read (λ p e. (Queued-free b p e).1) in
      let c₃ = count has_written (λ p e. (Queued-free b p e).2) in
      let c₄ = count has_claim (λ p e. (Queued-free b p e).3) in
      let sum : length b.written ≡ length b.taken + length g.rest =
        ap length g.first_in ∙ length-append b.taken g.rest in
      all_of (Queued b) (Waits n b) ps
        (Queued-Waits n b (λ none_left. omega (arith, g.places))
          (λ none_there. g.first_in ∙ nothing_after b.taken g.rest (omega (arith, g.values))))
        queued

-- However the statements of any number of threads interleave, from a fresh buffer of capacity `n` with no thread in
-- a method, either some thread can execute its next statement, or every thread is outside the methods or
-- waits as it should: in `put` while the buffer is full, or in `get` while it is empty.
pub Runs-CanMove :
    (n : ℕ) (memory : ℕ → ℕ) (ts ts' : List Pc) (b : Shared)
    → AllOutside ts
    → Runs ts (construct n memory) ts' b
    → CanMove ts' b ⊎ AllPcs (Waits n b) ts'
Runs-CanMove n memory ts ts' b out run =
    let (g, cap) = Runs-Good (construct-Good n memory ts out) run in
    elim (moves_or_not ts' b) [ inl can ↦ inl can | inr stuck ↦ inr (all_wait n ts' b g cap stuck) ]
