-- ===== src/Placement/Waking.antt =====
-- Waking a thread that a semaphore holds, by `signal`, by the end of the semaphore or by its time limit,
-- and waking a sleeper, in the abstract view.
use oskernel_riscv.Base.{
  length, ℕ, ◌<◌, ◌≡◌, refl, sym, ap, ◌∙◌, subst, ◌≢◌, ◌⊎◌, inl, inr, false, some, List, [], ◌∷◌,
  arith, ◌==◌, Bool-cases,
}
use oskernel_riscv.State.{
  regularly_waited, Kernel, dec64, sem_deleted, regularly_waited, SemStatus, update, is_wait,
}
use oskernel_riscv.Scheduler.{free}
use oskernel_riscv.Queue.{remove_spec}
use oskernel_riscv.Queue.Count.{count, count-add_last, count-remove_spec}
use oskernel_riscv.Base.Int.{ℤ, pos, inc}
use oskernel_riscv.Semaphore.{unblock, unblock_times, unblock_all, signal, delete_sem, set_val}
use oskernel_riscv.Placement.Waiting.{set_val-Placed}
use oskernel_riscv.Semaphore.Balance.{BalancedAt}
use oskernel_riscv.Semaphore.Wake.{
  signal-free, signal-woken, Alive, Woken, sleepers, woken, unblock-eq, woken-Woken, woken-Alive,
}
use oskernel_riscv.Placement.{
  Place, no_thread, on_cpu, in_line, in_bed, held_by, held_until, held_count, seat, At, PlacedOn,
  Placed,
}
use oskernel_riscv.Placement.Moves.{Placed-move, Placed-stay}

-- Whoever stands in the queue of a semaphore is held by it.
pub held-place : (x : Place) (s : ℕ) → 0 < held_count x s → (x ≡ held_by s) ⊎ (x ≡ held_until s)
held-place no_thread s h = absurd (omega arith)
held-place on_cpu s h = absurd (omega arith)
held-place in_line s h = absurd (omega arith)
held-place in_bed s h = absurd (omega arith)
held-place (held_by t) s h = inl (ground arith)
held-place (held_until t) s h = inr (ground arith)

module _ (cause : SemStatus) (s p : ℕ) (rest : List ℕ) (c : ℕ) (k : Kernel) (places : ℕ → Place)
    (all : PlacedOn c k places) (e : (k.sems s).queue_blocked ≡ p ∷ rest)
    (w : is_wait cause ≡ false) where
  pub first-held : (places p ≡ held_by s) ⊎ (places p ≡ held_until s)
  first-held = held-place (places p) s (ground (arith, (all p).held s, ap (count p) e))

  -- What waking needs to know of the first thread, whichever way it is held.
  record Held : Type 0 where
    alive : Alive k p
    seat_zero : seat c p ≡ 0
    line_zero : count p k.queue_threads ≡ 0
    bed_zero : count p (sleepers p k) ≡ 0
    others_zero : (t : ℕ) → t ≢ s → count p (k.sems t).queue_blocked ≡ 0
    rest_zero : count p rest ≡ 0

  first-Held : Held
  first-Held = elim first-held [
    | inl at ↦
        let a : At c k p (held_by s) = subst (At c k p) at (all p) in
        record {
          alive = a.fits.0;
          seat_zero = a.seated;
          line_zero = a.lined;
          bed_zero = ground (arith, a.bedded, a.fits.1);
          others_zero = λ t ne. ground (arith, a.held t, ne);
          rest_zero = ground (arith, a.held s, ap (count p) e);
        }
    | inr at ↦
        let a : At c k p (held_until s) = subst (At c k p) at (all p) in
        record {
          alive = a.fits.0;
          seat_zero = a.seated;
          line_zero = a.lined;
          bed_zero =
              ground (arith, a.bedded, a.fits.1, count-remove_spec p p k.list_asleep a.fits.0.0);
          others_zero = λ t ne. ground (arith, a.held t, ne);
          rest_zero = ground (arith, a.held s, ap (count p) e);
        }
  ]

  bed-others : (q : ℕ) → p ≢ 0 → q ≢ p → count q (sleepers p k) ≡ count q k.list_asleep
  bed-others q nz ne = ground (arith, count-remove_spec q p k.list_asleep nz)

  pub woken-Placed : PlacedOn c (woken cause s p rest k) (update places p in_line)
  woken-Placed =
      let h = first-Held in
      let k' = woken cause s p rest k in
      let is = woken-Woken cause s p rest k h.alive w in
      Placed-move c c k k' places p in_line all
        (record {
          seated = h.seat_zero;
          lined =
              ground (arith, ap (count p) is.line, count-add_last p p k.queue_threads, h.line_zero);
          bedded = ap (count p) is.asleep ∙ h.bed_zero;
          held = λ t. elim (Bool-cases (t == s)) [
            | inl same ↦ ground (arith, ap (count p) is.queue, h.rest_zero)
            | inr other ↦ ground (arith, is.other_sems t, h.others_zero t)
          ];
          fits = (woken-Alive cause s p rest k h.alive w p h.alive, ground (arith, is.status, w));
        })
        (λ q ne. record {
          seat_same = refl;
          line_same = ground (arith, ap (count q) is.line, count-add_last q p k.queue_threads, ne);
          bed_same = ap (count q) is.asleep ∙ bed-others q h.alive.0 ne;
          held_same = λ t. elim (Bool-cases (t == s)) [
            | inl same ↦ ground (arith, ap (count q) is.queue, ap (count q) e, ne)
            | inr other ↦ ground (arith, is.other_sems t)
          ];
          alike = ground (arith, is.others q ne);
        })

-- All threads of the list are in line now.
abbrev pub released : List ℕ → (ℕ → Place) → ℕ → Place
released [] places = places
released (p ∷ ps) places = released ps (update places p in_line)

-- The steps of `unblockAll`.
module _ (cause : SemStatus) (w : is_wait cause ≡ false) (s : ℕ) (c : ℕ) where
  pub unblock-Placed :
      (p : ℕ) (rest : List ℕ) (k : Kernel) (places : ℕ → Place)
      → PlacedOn c k places
      → (k.sems s).queue_blocked ≡ p ∷ rest
      → (unblock cause s k ≡ some (woken cause s p rest k))
        × PlacedOn c (woken cause s p rest k) (update places p in_line)
        × Woken cause s p rest k (woken cause s p rest k)
  unblock-Placed p rest k places all e =
      let h = first-Held cause s p rest c k places all e w in
      (
        unblock-eq cause s p rest k e h.alive.0,
        woken-Placed cause s p rest c k places all e w,
        woken-Woken cause s p rest k h.alive w,
      )

  pub unblock_times-Placed :
      (xs : List ℕ) (k : Kernel) (places : ℕ → Place)
      → PlacedOn c k places
      → (k.sems s).queue_blocked ≡ xs
      → (k' : Kernel) × (unblock_times (length xs) cause s k ≡ some k')
        × (k'.current ≡ k.current)
        × PlacedOn c k' (released xs places)
  unfolding unblock_times
  unblock_times-Placed [] k places all e = (k, refl, refl, all)
  unblock_times-Placed (p ∷ ps) k places all e =
      let (ran, placed, is) = unblock-Placed p ps k places all e in
      let k₁ = woken cause s p ps k in
      let v = inc (k₁.sems s).val in
      let (k', ran', cur, placed') =
        unblock_times-Placed ps (set_val s v k₁) (update places p in_line)
          (set_val-Placed s v c k₁ (update places p in_line) placed) (ground (arith, is.queue)) in
      (k', rw ran ran', cur ∙ is.same_current, placed')

-- `signal` on a semaphore whose value and queue agree: nobody moves, or the thread at the front of its queue
-- is in line.
pub signal-Placed :
    (s : ℕ) (k : Kernel) (places : ℕ → Place)
    → Placed k places
    → BalancedAt k s
    → (k' : Kernel) × (((signal s k ≡ some (pos 0, k'))
          × (k'.current ≡ k.current)
          × Placed k' places)
        ⊎ ((p : ℕ) × (signal s k ≡ some (pos 1, k'))
            × (k'.current ≡ k.current)
            × ((places p ≡ held_by s) ⊎ (places p ≡ held_until s))
            × Placed k' (update places p in_line)))
signal-Placed s k places all b = go (k.sems s).queue_blocked refl
  where
    v : ℤ
    v = inc (k.sems s).val

    Outcome : Type 0
    Outcome =
        (k' : Kernel) × (((signal s k ≡ some (pos 0, k'))
            × (k'.current ≡ k.current)
            × Placed k' places)
          ⊎ ((p : ℕ) × (signal s k ≡ some (pos 1, k'))
              × (k'.current ≡ k.current)
              × ((places p ≡ held_by s) ⊎ (places p ≡ held_until s))
              × Placed k' (update places p in_line)))

    held_real :
        (p : ℕ) (rest : List ℕ) (j : Kernel)
        → PlacedOn k.current j places
        → (j.sems s).queue_blocked ≡ p ∷ rest
        → p ≢ 0
    held_real p rest j all e =
        (first-Held regularly_waited s p rest k.current j places all e refl).alive.0

    go : (xs : List ℕ) → (k.sems s).queue_blocked ≡ xs → Outcome
    go [] e =
        (set_val s v k, inl (signal-free s k b e, refl, set_val-Placed s v k.current k places all))
    go (p ∷ rest) e =
        let k₁ = set_val s v k in
        let all₁ = set_val-Placed s v k.current k places all in
        let e₁ : (k₁.sems s).queue_blocked ≡ p ∷ rest = ground arith in
        let (ran, placed, is) =
          unblock-Placed regularly_waited refl s k.current p rest k₁ places all₁ e₁ in
        let held = first-held regularly_waited s p rest k.current k₁ places all₁ e₁ refl in
        let real : p ≢ 0 = held_real p rest k₁ all₁ e₁ in
        (
          woken regularly_waited s p rest k₁,
          inr (
            p,
            signal-woken s p rest k b e real,
            is.same_current,
            held,
            subst (λ q. PlacedOn q (woken regularly_waited s p rest k₁) (update places p in_line))
                (sym is.same_current) placed,
          ),
        )

-- `delete sem` of a semaphore whose value and queue agree ends with all its threads in line, and gives the
-- semaphore back.
pub delete_sem-Placed :
    (s : ℕ) (k : Kernel) (places : ℕ → Place)
    → Placed k places
    → BalancedAt k s
    → (k' : Kernel) × (delete_sem s k ≡ some k')
      × (k'.current ≡ k.current)
      × Placed k' (released (k.sems s).queue_blocked places)
unfolding delete_sem unblock_all
delete_sem-Placed s k places all b =
    let xs = (k.sems s).queue_blocked in
    let (k₁, ran, cur, placed) =
      unblock_times-Placed sem_deleted refl s k.current xs k places all refl in
    let k' = free s (record k₁ {
      all_semaphores = (remove_spec s k₁.all_semaphores).1;
      num_of_all_semaphores = dec64 k₁.num_of_all_semaphores;
    }) in
    (
      k',
      rw (b, ran) refl,
      cur,
      Placed-stay k.current k₁.current k₁ k' (released xs places) placed (λ q. record {
        seat_same = ap (λ (c : ℕ). seat c q) cur;
        line_same = refl;
        bed_same = refl;
        held_same = λ t. refl;
        alike = (refl, refl, refl, refl);
      }),
    )
