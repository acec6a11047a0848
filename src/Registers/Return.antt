-- ===== src/Registers/Return.antt =====
-- A thread that a trap interrupts gets its registers back.
use oskernel_riscv.Base.{
  ℕ, zero, suc, ◌+◌, ◌*◌, ◌%◌, ◌^◌, ◌≤◌, ◌<◌, ◌≡◌, ◌≢◌, refl, sym, ◌∙◌, ◌⊎◌, inl, inr, arith, ◌==◌,
  Bool-cases, if◌then◌else◌, subst,
}
use oskernel_riscv.Allocator.{store}
use oskernel_riscv.Registers.{
  Core, indices, load_words, lower_sp, raise_sp, trap_entry, trap_exit, write_result,
}
use oskernel_riscv.Registers.Frames.{
  HasRoom, frame, lower-frame, lower-other, raise-sp, raise-other, store_words-slot,
  load_words-Loaded,
}

entry-slot :
    (c : Core) (i : ℕ)
    → HasRoom c
    → i < 32
    → (trap_entry c).mem (frame c + i * 8) ≡ (lower_sp c).reg i
unfolding trap_entry
entry-slot c i room hi =
    let at = lower-frame c room in
    subst (λ s. (trap_entry c).mem (s + i * 8) ≡ (lower_sp c).reg i) at
      (store_words-slot 0 32 (lower_sp c) i (omega (arith, at, room)) (omega arith) hi)

omega-ten : (s i : ℕ) → s + 256 ≤ 2 ^ 64 → i < 32 → s + i * 8 ≡ (s + 80) % 2 ^ 64 → i ≡ 10
omega-ten s i fits hi e = omega (arith, fits, hi, e)

-- What the handler writes, and what it leaves, in the frame
written :
    (s v i : ℕ) (d : Core)
    → s + 256 ≤ 2 ^ 64
    → i < 32
    → (write_result s v d).mem (s + i * 8) ≡ (if i == 10 then v else d.mem (s + i * 8))
unfolding store
written s v i d fits hi = elim (Bool-cases (i == 10)) [
  | inl ten ↦
      let is_ten : i ≡ 10 = ground (arith, ten) in
      let at : (s + 80) % 2 ^ 64 ≡ s + i * 8 = omega (arith, is_ten, fits) in
      ground (arith, ten, at)
  | inr other ↦
      let ne : s + i * 8 ≢ (s + 80) % 2 ^ 64 =
        λ e. ground (arith, other, omega-ten s i fits hi e) in
      ground (arith, other, ne)
]

where_is : (i : ℕ) → (i ≡ 0) ⊎ (i ≡ 2) ⊎ ((1 ≤ i) × (i ≢ 2))
where_is zero = inl refl
where_is (suc zero) = inr (inr (omega arith, λ k. omega (arith, k)))
where_is (suc (suc zero)) = inr (inl refl)
where_is (suc (suc (suc i))) = inr (inr (omega arith, λ k. omega (arith, k)))

-- All registers but `a0` are in the frame as they were.
restored :
    (c d : Core) (v i : ℕ)
    → HasRoom c
    → i < 32
    → i ≢ 2
    → ((j : ℕ) → j < 32 → j ≢ 10 → d.mem (frame c + j * 8) ≡ (trap_entry c).mem (frame c + j * 8))
    → (if i == 10 then v else d.mem (frame c + i * 8)) ≡ (if i == 10 then v else c.reg i)
restored c d v i room hi ne kept = elim (Bool-cases (i == 10)) [
  | inl ten ↦ rw ten refl
  | inr other ↦
      rw other
        (kept i hi (λ k. ground (arith, other, k)) ∙ entry-slot c i room hi ∙ lower-other c i ne)
]

-- A trap: the entry keeps all registers in a frame of the thread's stack, and the exit gives them back, if the
-- frame was left alone but for the place of `a0`, which the handler writes its result to.
pub trap_exit-entry :
    (c d : Core) (v i : ℕ)
    → HasRoom c
    → c.reg 0 ≡ 0
    → d.reg 0 ≡ 0
    → d.reg 2 ≡ frame c
    → ((j : ℕ) → j < 32 → j ≢ 10 → d.mem (frame c + j * 8) ≡ (trap_entry c).mem (frame c + j * 8))
    → i < 32
    → (trap_exit (write_result (frame c) v d)).reg i ≡ (if i == 10 then v else c.reg i)
unfolding trap_exit
trap_exit-entry c d v i room z₀ z₁ at kept hi =
    let w = write_result (frame c) v d in
    let e = load_words (indices 0 32) w in
    let sp_held : w.mem (frame c + 16) ≡ frame c =
      written (frame c) v 2 d (omega (arith, room)) (omega arith)
      ∙ kept 2 (omega arith) (λ k. omega (arith, k))
      ∙ entry-slot c 2 room (omega arith)
      ∙ lower-frame c room in
    let loaded = load_words-Loaded (frame c) 0 32 w (omega (arith, room)) at (λ lo hi'. sp_held) in
    elim (where_is i) as (λ x. (trap_exit w).reg i ≡ (if i == 10 then v else c.reg i)) [
      | inl null ↦
          subst (λ k. (raise_sp e).reg k ≡ (if k == 10 then v else c.reg k)) (sym null)
            (raise-other e 0 (λ k. omega (arith, k)) ∙ loaded.leaves_zero ∙ (z₁ ∙ sym z₀))
      | inr (inl two) ↦
          subst (λ k. (raise_sp e).reg k ≡ (if k == 10 then v else c.reg k)) (sym two)
            (raise-sp e c room loaded.same_sp)
      | inr (inr (pos, ne)) ↦
          raise-other e i ne
          ∙ loaded.loads i pos (omega arith) hi
          ∙ written (frame c) v i d (omega (arith, room)) hi
          ∙ restored c d v i room hi ne kept
    ]
