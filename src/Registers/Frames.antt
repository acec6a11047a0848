-- ===== src/Registers/Frames.antt =====
-- Registers in the words of a frame, and back from there.
use oskernel_riscv.Base.{
  subst, ℕ, zero, suc, ◌+◌, ◌-◌, ◌*◌, ◌^◌, ◌≤◌, ◌<◌, ◌≡◌, ◌≢◌, refl, sym, ap, ◌∙◌, List, [], ◌∷◌,
  arith, ◌==◌, Bool-cases, inl, inr,
}
use oskernel_riscv.Allocator.{store}
use oskernel_riscv.Registers.{
  Core, slot, store_word, load_word, indices, store_words, load_words, lower_sp, raise_sp,
}

-- A frame at `s` has room for the registers below `a + n`.
abbrev pub Fits : ℕ → ℕ → ℕ → Type 0
Fits s a n = s + (a + n) * 8 ≤ 2 ^ 64

-- An address that none of these registers is stored at.
abbrev pub Away : ℕ → ℕ → ℕ → ℕ → Type 0
Away s a n y = (i : ℕ) → a ≤ i → i < a + n → y ≢ s + i * 8

pub store_words-reg : (is : List ℕ) (c : Core) → (store_words is c).reg ≡ c.reg
unfolding store_words
store_words-reg [] c = refl
store_words-reg (i ∷ is) c = store_words-reg is (store_word i c)

pub store_words-Away :
    (a n : ℕ) (c : Core) (y : ℕ)
    → Fits (c.reg 2) a n
    → Away (c.reg 2) a n y
    → (store_words (indices a n) c).mem y ≡ c.mem y
unfolding store_words indices store
store_words-Away a zero c y fits away = refl
store_words-Away a (suc n) c y fits away =
    let here : y ≢ c.reg 2 + a * 8 = away a (omega arith) (omega arith) in
    let at : slot (c.reg 2) a ≡ c.reg 2 + a * 8 = omega (arith, fits) in
    store_words-Away (suc a) n (store_word a c) y (omega (arith, fits))
      (λ i lo hi. away i (omega arith) (omega arith))
    ∙ ground (arith, here, at)

pub store_words-slot :
    (a n : ℕ) (c : Core) (i : ℕ)
    → Fits (c.reg 2) a n
    → a ≤ i
    → i < a + n
    → (store_words (indices a n) c).mem (c.reg 2 + i * 8) ≡ c.reg i
unfolding store_words indices store
store_words-slot a zero c i fits lo hi = absurd (omega arith)
store_words-slot a (suc n) c i fits lo hi = elim (Bool-cases (i == a)) [
  | inl same ↦
      let at : slot (c.reg 2) a ≡ c.reg 2 + i * 8 = ground (arith, fits, same) in
      let later =
        store_words-Away (suc a) n (store_word a c) (c.reg 2 + i * 8) (omega (arith, fits))
          (λ j lo' hi'. ground (arith, same)) in
      later ∙ ground (arith, at, same)
  | inr other ↦
      store_words-slot (suc a) n (store_word a c) i (omega (arith, fits)) (ground (arith, other))
        (omega arith)
]

-- Registers loaded from a frame at `s`. If `sp` is among them, its word holds `s` itself.
pub record Loaded (s a n : ℕ) (c d : Core) : Type 0 where
  pub same_memory : d.mem ≡ c.mem
  pub same_sp : d.reg 2 ≡ s
  pub loads : (i : ℕ) → 1 ≤ i → a ≤ i → i < a + n → d.reg i ≡ c.mem (s + i * 8)
  pub leaves : (i : ℕ) → i < a → d.reg i ≡ c.reg i
  pub leaves_zero : d.reg 0 ≡ c.reg 0

pub load_words-Loaded :
    (s a n : ℕ) (c : Core)
    → Fits s a n
    → c.reg 2 ≡ s
    → (a ≤ 2 → 2 < a + n → c.mem (s + 16) ≡ s)
    → Loaded s a n c (load_words (indices a n) c)
unfolding load_words indices
load_words-Loaded s a zero c fits at keeps = record {
  same_memory = refl;
  same_sp = at;
  loads = λ i pos lo hi. absurd (omega (arith, lo, hi));
  leaves = λ i lt. refl;
  leaves_zero = refl;
}
load_words-Loaded s a (suc n) c fits at keeps =
    let word : slot (c.reg 2) a ≡ s + a * 8 = omega (arith, fits, at) in
    let d = load_word a c in
    let sp_kept : d.reg 2 ≡ s = elim (Bool-cases (a == 2)) [
      | inl two ↦
          let is_two : a ≡ 2 = ground (arith, two) in
          let held : c.mem (s + 16) ≡ s = keeps (omega arith) (omega arith) in
          let read : c.mem (slot (c.reg 2) a) ≡ c.mem (s + 16) =
            ap c.mem word ∙ ap (λ (k : ℕ). c.mem (s + k * 8)) is_two in
          ground (arith, two, is_two, held, read)
      | inr other ↦ ground (arith, other, at)
    ] in
    let rest =
      load_words-Loaded s (suc a) n d (omega (arith, fits)) sp_kept
        (λ lo hi. keeps (omega arith) (omega arith)) in
    record {
      same_memory = rest.same_memory;
      same_sp = rest.same_sp;
      loads = λ i pos lo hi. elim (Bool-cases (i == a)) [
        | inl same ↦
            let is_a : i ≡ a = ground (arith, same) in
            let first : (load_words (indices (suc a) n) d).reg a ≡ d.reg a =
              rest.leaves a (omega arith) in
            let read : d.reg a ≡ c.mem (s + a * 8) = ground (arith, is_a, pos, ap c.mem word) in
            subst (λ k. (load_words (indices (suc a) n) d).reg k ≡ c.mem (s + k * 8)) (sym is_a)
              (first ∙ read)
        | inr other ↦ rest.loads i pos (ground (arith, other, lo)) (omega (arith, hi))
      ];
      leaves = λ i lt. rest.leaves i (omega (arith, lt)) ∙ ground (arith, lt);
      leaves_zero = rest.leaves_zero ∙ ground arith;
    }

-- The stack has room for a frame.
abbrev pub HasRoom : Core → Type 0
HasRoom c = (256 ≤ c.reg 2) × (c.reg 2 < 2 ^ 64)

abbrev pub frame : Core → ℕ
frame c = c.reg 2 - 256

pub lower-frame : (c : Core) → HasRoom c → (lower_sp c).reg 2 ≡ frame c
lower-frame c room = omega (arith, room)

pub lower-other : (c : Core) (i : ℕ) → i ≢ 2 → (lower_sp c).reg i ≡ c.reg i
lower-other c i ne = ground (arith, ne)

pub raise-sp : (d : Core) (c : Core) → HasRoom c → d.reg 2 ≡ frame c → (raise_sp d).reg 2 ≡ c.reg 2
raise-sp d c room at = omega (arith, room, at)

pub raise-other : (d : Core) (i : ℕ) → i ≢ 2 → (raise_sp d).reg i ≡ d.reg i
raise-other d i ne = ground (arith, ne)
