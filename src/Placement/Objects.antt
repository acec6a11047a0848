-- ===== src/Placement/Objects.antt =====
-- The events that make, signal or delete an object, from a sound state, end in a sound state.
use oskernel_riscv.Base.{
  zero, suc, suc, true, ℕ, ◌<◌, ◌^◌, ◌≡◌, refl, sym, ◌∙◌, ◌≢◌, inl, inr, false, some, [], arith,
  ◌>>=◌,
}
use oskernel_riscv.Base.Int.{pos}
use oskernel_riscv.State.{Kernel, is_thread_valid, is_finished, update}
use oskernel_riscv.Scheduler.{construct_thread}
use oskernel_riscv.Semaphore.{returns, signal, construct_sem, delete_sem}
use oskernel_riscv.Placement.{Place, no_thread, on_cpu, in_line, in_bed, held_by, held_until, At}
use oskernel_riscv.Placement.Waking.{signal-Placed, delete_sem-Placed, released}
use oskernel_riscv.Placement.Making.{create-Placed, construct_sem-Placed}
use oskernel_riscv.Placement.Balance.{
  signal-Balanced, delete_sem-Balanced, construct_sem-Balanced, Balanced-sems,
}
use oskernel_riscv.Placement.Waiting.{set_val-Placed}
use oskernel_riscv.Base.Int.{pos, negsuc, dec, is_pos, ℤ}
use oskernel_riscv.Semaphore.{try_wait, deficit}
use oskernel_riscv.Placement.Events.{Sound, Ends}
use oskernel_riscv.Placement.Ends.{still_busy, released_busy}

-- At an address without a thread, no thread is anywhere.
invalid-no_thread :
    (c : ℕ) (k : Kernel) (p : ℕ) (x : Place)
    → At c k p x
    → is_thread_valid k p ≡ false
    → x ≡ no_thread
unfolding is_finished
invalid-no_thread c k p no_thread a v = refl
invalid-no_thread c k p on_cpu a v = absurd (ground (arith, a.fits.0.1, v))
invalid-no_thread c k p in_line a v = absurd (ground (arith, a.fits.0.1, v))
invalid-no_thread c k p in_bed a v = absurd (ground (arith, a.fits.0.1, v))
invalid-no_thread c k p (held_by s) a v = absurd (ground (arith, a.fits.0.1, v))
invalid-no_thread c k p (held_until s) a v = absurd (ground (arith, a.fits.0.1, v))

module _ (i : ℕ) (k : Kernel) (is : Sound i k) where
  pub signal-Ends : (s : ℕ) → Ends i (signal s k >>= λ r. some (returns r.0, r.1))
  signal-Ends s =
      let (k', done) = signal-Placed s k is.places is.placed (is.balanced s) in
      elim done [
        | inl (ran, cur, all) ↦ (
          returns (pos 0),
          k',
          rw ran refl,
          record {
            places = is.places;
            placed = all;
            balanced = signal-Balanced s k is.places (pos 0) k' is.placed is.balanced ran;
            runs = λ e. is.runs (sym cur ∙ e);
            busy = is.busy;
          },
        )
        | inr (p, ran, cur, held, all) ↦ (
          returns (pos 1),
          k',
          rw ran refl,
          record {
            places = update is.places p in_line;
            placed = all;
            balanced = signal-Balanced s k is.places (pos 1) k' is.placed is.balanced ran;
            runs = λ e. is.runs (sym cur ∙ e);
            busy = still_busy i is.places p is.busy;
          },
        )
      ]

  pub close-Ends : (s : ℕ) → Ends i (delete_sem s k >>= λ k'. some (returns (pos 0), k'))
  close-Ends s =
      let (k', ran, cur, all) = delete_sem-Placed s k is.places is.placed (is.balanced s) in
      (
        returns (pos 0),
        k',
        rw ran refl,
        record {
          places = released (k.sems s).queue_blocked is.places;
          placed = all;
          balanced = delete_sem-Balanced s k is.places k' is.placed is.balanced ran;
          runs = λ e. is.runs (sym cur ∙ e);
          busy = released_busy i (k.sems s).queue_blocked is.places is.busy;
        },
      )

  pub create-Ends :
      (p body arg stack_space : ℕ)
      → p ≢ 0
      → body ≢ 0
      → is_thread_valid k p ≡ false
      → Ends i (some (returns (pos 0), construct_thread p body arg stack_space k))
  create-Ends p body arg stack_space real code none_there =
      let fresh = invalid-no_thread k.current k p (is.places p) (is.placed p) none_there in
      let (line, cur, sems, all) =
        create-Placed p body arg stack_space k real code is.places is.placed is.runs fresh in
      (
        returns (pos 0),
        construct_thread p body arg stack_space k,
        refl,
        record {
          places = update is.places p in_line;
          placed = all;
          balanced = Balanced-sems k (construct_thread p body arg stack_space k) sems is.balanced;
          runs = λ e. is.runs (sym cur ∙ e);
          busy = still_busy i is.places p is.busy;
        },
      )

  pub open-Ends :
      (s n : ℕ)
      → (k.sems s).queue_blocked ≡ []
      → n < 2 ^ 63
      → Ends i (some (returns (pos 0), construct_sem s n k))
  open-Ends s n nobody small = (
    returns (pos 0),
    construct_sem s n k,
    refl,
    record {
      places = is.places;
      placed = construct_sem-Placed s n k is.places is.placed nobody;
      balanced = construct_sem-Balanced s n k small is.balanced;
      runs = unfold construct_sem in is.runs;
      busy = is.busy;
    },
  )

-- Values and queues stay in balance when a positive value is decreased.
pub try_wait-Sound :
    (i s : ℕ) (k : Kernel) → is_pos (k.sems s).val ≡ true → Sound i k → Sound i (try_wait s k).1
unfolding try_wait
try_wait-Sound i s k up so = record {
  places = so.places;
  placed = set_val-Placed s (dec (k.sems s).val) k.current k so.places so.placed;
  balanced = λ t. ground (arith, so.balanced t, so.balanced s, deficit-pos (k.sems s).val up);
  runs = so.runs;
  busy = so.busy;
}
  where
    deficit-pos : (v : ℤ) → is_pos v ≡ true → deficit (dec v) ≡ deficit v
    deficit-pos (pos zero) h = cc
    deficit-pos (pos (suc n)) h = refl
    deficit-pos (negsuc n) h = cc
