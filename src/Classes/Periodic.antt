-- ===== src/Classes/Periodic.antt =====
-- src/CPP_PeriodicThread.cpp: the loop of `periodicActivation_wrapper`, and `run_wrapper` of src/CPP_Thread.cpp. What
-- the derived class does in `periodicActivation` is an argument: from the period and a state of its own it makes
-- the next ones, and `terminate` there makes the period 0.
use oskernel_riscv.Base.{
  ℕ, zero, suc, ◌≤◌, ◌<◌, ◌≡◌, ◌≢◌, refl, false, Option, none, some, List, [], ◌∷◌, arith, ◌==◌,
  if◌then◌else◌, ◌>>=◌,
}
use oskernel_riscv.Classes.{periodic_period}

module _ {S : Type 0} (activation : ℕ → S → ℕ × S) where
  -- The loop on fuel: the times that the thread slept for between activations, and the last state.
  unfoldable pub periodic_loop : ℕ → ℕ → S → Option (List ℕ × S)
  periodic_loop zero period s = none
  periodic_loop (suc fuel) period s =
      let (next, t) = activation period s in
      let rest = periodic_loop fuel next t >>= λ r. some (next ∷ r.0, r.1) in
      if period == 0 then some ([], s) else rest

  -- `periodicActivation_wrapper`
  unfoldable pub periodic_activation_wrapper : ℕ → ℕ → ℕ → S → Option (List ℕ × S)
  unfolding periodic_loop
  periodic_activation_wrapper fuel ptr period s =
      if ptr == 0 then some ([], s) else periodic_loop fuel period s

  -- After `n` activations
  abbrev pub activated : ℕ → ℕ → S → ℕ × S
  activated zero period s = (period, s)
  activated (suc n) period s = let (next, t) = activation period s in activated n next t

  -- The periods that the first `n` activations leave
  abbrev pub sleeps : ℕ → ℕ → S → List ℕ
  sleeps zero period s = []
  sleeps (suc n) period s = let (next, t) = activation period s in next ∷ sleeps n next t

  loop-sleeps :
      (n period : ℕ) (s : S)
      → ((j : ℕ) → j < n → (activated j period s).0 ≢ 0)
      → (activated n period s).0 ≡ 0
      → periodic_loop (suc n) period s ≡ some (sleeps n period s, (activated n period s).1)
  unfolding periodic_loop
  loop-sleeps zero period s goes stops = ground (arith, stops)
  loop-sleeps (suc n) period s goes stops =
      let (next, t) = activation period s in
      let rest = loop-sleeps n next t (λ j lt. goes (suc j) (omega arith)) stops in
      let on : (period == 0) ≡ false = ground (arith, goes 0 (omega arith)) in rw (on, rest) refl

  -- A thread that was constructed with any period, and whose `n`-th activation is the first one that leaves the
  -- period 0, is activated exactly `n` times, and sleeps after each for the period that the activation left; it
  -- is activated at least once.
  pub periodic_activation_wrapper-sleeps :
      (n ptr period : ℕ) (s : S)
      → ptr ≢ 0
      → ((j : ℕ) → j < n → (activated j (periodic_period period) s).0 ≢ 0)
      → (activated n (periodic_period period) s).0 ≡ 0
      → (1 ≤ n)
        × (periodic_activation_wrapper (suc n) ptr (periodic_period period) s
            ≡ some
                (sleeps n (periodic_period period) s, (activated n (periodic_period period) s).1))
  unfolding periodic_activation_wrapper
  periodic_activation_wrapper-sleeps n ptr period s real goes stops =
      let there : (ptr == 0) ≡ false = ground (arith, real) in
      (at_once n stops, rw there (loop-sleeps n (periodic_period period) s goes stops))
    where
      at_once : (k : ℕ) → (activated k (periodic_period period) s).0 ≡ 0 → 1 ≤ k
      at_once zero e = absurd (ground (arith, e))
      at_once (suc k) e = omega arith
