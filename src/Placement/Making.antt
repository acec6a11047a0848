-- ===== src/Placement/Making.antt =====
-- New threads and new semaphores in the abstract view.
use oskernel_riscv.Base.{ℕ, ◌≡◌, refl, sym, ap, ◌∙◌, subst, ◌≢◌, [], arith}
use oskernel_riscv.State.{
  Kernel, Sem, Thread, update, put_thread, ready, non_waiting, thread_magic_number, is_thread_valid,
  is_finished,
}
use oskernel_riscv.Queue.{add_last}
use oskernel_riscv.Queue.Count.{count, count-add_last}
use oskernel_riscv.Scheduler.{
  put, construct_thread, new_thread, enlist, adopt, take_seat, number, count_system,
}
use oskernel_riscv.Semaphore.{construct_sem}
use oskernel_riscv.Placement.{Place, no_thread, in_line, At, PlacedOn, Placed}
use oskernel_riscv.Placement.Moves.{Alike, Placed-move, Placed-stay}

-- A step of the constructor of the thread at `p` that leaves the lists alone.
abbrev Beside : ℕ → Kernel → Kernel → Type 0
Beside p k k' =
    (k'.queue_threads ≡ k.queue_threads)
    × (k'.current ≡ k.current)
    × (k'.list_asleep ≡ k.list_asleep)
    × (k'.sems ≡ k.sems)
    × ((q : ℕ) → q ≢ p → Alike (k.threads q) (k'.threads q))
    × ((k'.threads p).thread_state ≡ (k.threads p).thread_state)
    × ((k'.threads p).sem_status ≡ (k.threads p).sem_status)

Beside-trans : (p : ℕ) (k j i : Kernel) → Beside p k j → Beside p j i → Beside p k i
Beside-trans p k j i (l, c, b, s, o, t, w) (l', c', b', s', o', t', w') =
    (l' ∙ l, c' ∙ c, b' ∙ b, s' ∙ s, λ q ne. ground (arith, o q ne, o' q ne), t' ∙ t, w' ∙ w)

adopt-Beside : (p parent : ℕ) (k : Kernel) → Beside p k (adopt parent k)
unfolding adopt
adopt-Beside p parent k = (
  ground arith,
  ground arith,
  ground arith,
  ground arith,
  λ q ne. ground arith,
  ground arith,
  ground arith,
)

take_seat-same : (p body : ℕ) (k : Kernel) → body ≢ 0 → take_seat p body k ≡ k
unfolding take_seat
take_seat-same p body k code = ground (arith, code)

number-Beside :
    (p : ℕ) (k : Kernel)
    → Beside p k (number p k) × (((number p k).threads p).my_magic_number ≡ thread_magic_number)
unfolding number
number-Beside p k =
    ((refl, refl, refl, refl, λ q ne. ground (arith, ne), ground arith, ground arith), ground arith)

count_system-Beside :
    (p parent body : ℕ) (k : Kernel)
    → Beside p k (count_system parent body k) × ((count_system parent body k).threads ≡ k.threads)
unfolding count_system
count_system-Beside p parent body k = (
  (
    ground arith,
    ground arith,
    ground arith,
    ground arith,
    λ q ne. ground arith,
    ground arith,
    ground arith,
  ),
  ground arith,
)

module _ (p body arg stack_space : ℕ) (k : Kernel) (real : p ≢ 0) (code : body ≢ 0) where
  entered : Kernel
  entered = enlist p body (put_thread k p (new_thread body arg stack_space k.current))

  entered-rest :
      (entered.queue_threads ≡ add_last k.queue_threads p)
      × (entered.current ≡ k.current)
      × (entered.list_asleep ≡ k.list_asleep)
      × (entered.sems ≡ k.sems)
      × ((q : ℕ) → q ≢ p → entered.threads q ≡ k.threads q)
      × ((entered.threads p).thread_state ≡ ready)
      × ((entered.threads p).sem_status ≡ non_waiting)
  unfolding entered enlist put
  entered-rest = (
    ground (arith, code),
    ground (arith, code),
    ground (arith, code),
    ground (arith, code),
    λ q ne. ground (arith, code, ne),
    ground (arith, code),
    ground (arith, code),
  )

  abbrev made : Kernel
  made = construct_thread p body arg stack_space k

  made-Beside : Beside p entered made × ((made.threads p).my_magic_number ≡ thread_magic_number)
  unfolding construct_thread entered
  made-Beside =
      let k₁ = adopt k.current entered in
      let seat_same : take_seat p body k₁ ≡ k₁ = take_seat-same p body k₁ code in
      let k₂ = number p k₁ in
      let (b₂, magic) = number-Beside p k₁ in
      let (b₃, threads) = count_system-Beside p k.current body k₂ in
      subst
        (λ j.
          Beside p entered (count_system k.current body (number p j))
          × (((count_system k.current body (number p j)).threads p).my_magic_number
              ≡ thread_magic_number))
        (sym seat_same)
        (
          Beside-trans p entered k₂ (count_system k.current body k₂)
              (Beside-trans p entered k₁ k₂ (adopt-Beside p k.current entered) b₂) b₃,
          ap (λ (f : ℕ → Thread). (f p).my_magic_number) threads ∙ magic,
        )

  -- A new thread with a body, at an address where no thread is, joins the end of the ready queue; everybody
  -- else stays.
  pub create-Placed :
      (places : ℕ → Place)
      → Placed k places
      → k.current ≢ 0
      → places p ≡ no_thread
      → (made.queue_threads ≡ add_last k.queue_threads p)
        × (made.current ≡ k.current)
        × (made.sems ≡ k.sems)
        × Placed made (update places p in_line)
  unfolding is_finished is_thread_valid
  create-Placed places all nz fresh =
      let (line, cur, bed, sems, others, st, status) = entered-rest in
      let ((l, c, b, q', o, t, w), magic) = made-Beside in
      let a : At k.current k p no_thread = subst (At k.current k p) fresh (all p) in
      (
        l ∙ line,
        c ∙ cur,
        q' ∙ sems,
        subst (λ i. PlacedOn i made (update places p in_line)) (sym (c ∙ cur))
            (Placed-move k.current k.current k made places p in_line all
              (record {
                seated = a.seated;
                lined =
                    ap (count p) (l ∙ line)
                    ∙ (count-add_last p p k.queue_threads ∙ ground (arith, a.lined));
                bedded = ap (count p) (b ∙ bed) ∙ a.bedded;
                held =
                    λ s. ap (λ (f : ℕ → Sem). count p (f s).queue_blocked) (q' ∙ sems) ∙ a.held s;
                fits = ((real, ground (arith, magic, t, st)), ground (arith, w, status));
              })
              (λ q ne. record {
                seat_same = refl;
                line_same =
                    ap (count q) (l ∙ line)
                    ∙ (count-add_last q p k.queue_threads ∙ ground (arith, ne));
                bed_same = ap (count q) (b ∙ bed);
                held_same = λ s. ap (λ (f : ℕ → Sem). count q (f s).queue_blocked) (q' ∙ sems);
                alike = subst (λ x. Alike x (made.threads q)) (others q ne) (o q ne);
              })),
      )

-- A new semaphore, at an address at which nobody waits, moves nobody.
pub construct_sem-Placed :
    (s n : ℕ) (k : Kernel) (places : ℕ → Place)
    → Placed k places
    → (k.sems s).queue_blocked ≡ []
    → Placed (construct_sem s n k) places
unfolding construct_sem
construct_sem-Placed s n k places all none_held =
    Placed-stay k.current k.current k (construct_sem s n k) places all (λ q. record {
      seat_same = refl;
      line_same = refl;
      bed_same = refl;
      held_same = λ t. ground (arith, ap (count q) none_held);
      alike = (refl, refl, refl, refl);
    })
