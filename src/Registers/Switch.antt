-- ===== src/Registers/Switch.antt =====
-- A thread that is switched away from gets its registers back.
use oskernel_riscv.Base.{
  ℕ, zero, suc, ◌+◌, ◌*◌, ◌≤◌, ◌<◌, ◌≡◌, ◌≢◌, refl, sym, ap, ◌∙◌, ◌⊎◌, inl, inr, false, arith,
  subst,
}
use oskernel_riscv.Allocator.{Memory, store}
use oskernel_riscv.Registers.{
  Core, indices, load_words, lower_sp, raise_sp, push_registers, pop_registers, context_switch,
}
use oskernel_riscv.Registers.Frames.{
  store_words-reg, HasRoom, frame, lower-frame, raise-sp, raise-other, store_words-Away,
  store_words-slot, load_words-Loaded,
}

-- The address is not in the frame at `s`.
abbrev pub Beyond : ℕ → ℕ → Type 0
Beyond s y = (y < s) ⊎ (s + 256 ≤ y)

-- The words of a context are not in the frame.
abbrev pub Clear : ℕ → ℕ → Type 0
Clear s context = Beyond s context × Beyond s (context + 8)

-- The registers of `c` are in its frame, and its `ra` and `sp` in the context `old`.
pub record Suspended (old : ℕ) (c : Core) (m : Memory) : Type 0 where
  pub in_frame : (i : ℕ) → 3 ≤ i → i < 32 → m (frame c + i * 8) ≡ c.reg i
  pub has_ra : m old ≡ c.reg 1
  pub has_sp : m (old + 8) ≡ frame c

beyond : (s y i : ℕ) → Beyond s y → i < 32 → s + i * 8 ≢ y
beyond s y i (inl below) hi = λ e. omega (arith, below, hi, e)
beyond s y i (inr above) hi = λ e. omega (arith, above, hi, e)

pushed-reg : (c : Core) → (push_registers false c).reg ≡ (lower_sp c).reg
unfolding push_registers
pushed-reg c = store_words-reg (indices 3 29) (lower_sp c)

pushed-slot :
    (c : Core) (i : ℕ)
    → HasRoom c
    → 3 ≤ i
    → i < 32
    → (push_registers false c).mem (frame c + i * 8) ≡ c.reg i
unfolding push_registers
pushed-slot c i room lo hi =
    let at = lower-frame c room in
    subst (λ s. (push_registers false c).mem (s + i * 8) ≡ c.reg i) at
      (store_words-slot 3 29 (lower_sp c) i (omega (arith, at, room)) lo hi ∙ ground (arith, lo))

pushed-away :
    (c : Core) (y : ℕ) → HasRoom c → Beyond (frame c) y → (push_registers false c).mem y ≡ c.mem y
unfolding push_registers
pushed-away c y room out =
    let at = lower-frame c room in
    store_words-Away 3 29 (lower_sp c) y (omega (arith, at, room))
      (λ i lo hi e. beyond (frame c) y i out hi (ap (λ (k : ℕ). k + i * 8) (sym at) ∙ sym e))

-- What a switch stores
switched-ra : (old new : ℕ) (c : Core) → (context_switch old new c).mem old ≡ c.reg 1
unfolding context_switch store
switched-ra old new c = ground arith

switched-sp : (old new : ℕ) (c : Core) → (context_switch old new c).mem (old + 8) ≡ c.reg 2
unfolding context_switch store
switched-sp old new c = ground arith

switched-away :
    (old new : ℕ) (c : Core) (y : ℕ)
    → y ≢ old
    → y ≢ old + 8
    → (context_switch old new c).mem y ≡ c.mem y
unfolding context_switch store
switched-away old new c y n₁ n₂ = ground (arith, n₁, n₂)

-- A thread that switches away is suspended.
switch-Suspended :
    (old new : ℕ) (c : Core)
    → HasRoom c
    → Clear (frame c) old
    → Suspended old c (context_switch old new (push_registers false c)).mem
switch-Suspended old new c room clear =
    let c₁ = push_registers false c in
    record {
      in_frame = λ i lo hi.
          switched-away old new c₁ (frame c + i * 8) (beyond (frame c) old i clear.0 hi)
            (beyond (frame c) (old + 8) i clear.1 hi)
          ∙ pushed-slot c i room lo hi;
      has_ra = switched-ra old new c₁ ∙ ap (λ (r : ℕ → ℕ). r 1) (pushed-reg c);
      has_sp = switched-sp old new c₁ ∙ ap (λ (r : ℕ → ℕ). r 2) (pushed-reg c) ∙ lower-frame c room;
    }

-- Two contexts, or two frames, that do not overlap
abbrev pub Distinct : ℕ → ℕ → ℕ → Type 0
Distinct size a b = (a + size ≤ b) ⊎ (b + size ≤ a)

Distinct-slot : (s t i : ℕ) → Distinct 256 s t → i < 32 → Beyond t (s + i * 8)
Distinct-slot s t i (inl below) hi = inl (omega (arith, below, hi))
Distinct-slot s t i (inr above) hi = inr (omega (arith, above, hi))

Distinct-words : (a b : ℕ) → Distinct 16 a b → (a ≢ b) × (a ≢ b + 8) × (a + 8 ≢ b) × (a + 8 ≢ b + 8)
Distinct-words a b (inl below) = (
  λ e. omega (arith, below, e),
  λ e. omega (arith, below, e),
  λ e. omega (arith, below, e),
  λ e. omega (arith, below, e),
)
Distinct-words a b (inr above) = (
  λ e. omega (arith, above, e),
  λ e. omega (arith, above, e),
  λ e. omega (arith, above, e),
  λ e. omega (arith, above, e),
)

-- Another thread with the registers `d` and the context `other` is kept apart from a suspended one.
pub record KeptApart (old : ℕ) (c : Core) (other : ℕ) (d : Core) : Type 0 where
  pub room : HasRoom d
  pub frames : Distinct 256 (frame c) (frame d)
  pub contexts : Distinct 16 old other
  pub my_frame : Clear (frame c) other
  pub other_frame : Clear (frame d) old

-- The switch of another thread leaves it suspended.
pub Suspended-switch :
    (old other new : ℕ) (c d : Core)
    → KeptApart old c other d
    → Suspended old c d.mem
    → Suspended old c (context_switch other new (push_registers false d)).mem
Suspended-switch old other new c d far is =
    let e = push_registers false d in
    let words = Distinct-words old other far.contexts in
    record {
      in_frame = λ i lo hi.
          switched-away other new e (frame c + i * 8) (beyond (frame c) other i far.my_frame.0 hi)
            (beyond (frame c) (other + 8) i far.my_frame.1 hi)
          ∙ pushed-away d (frame c + i * 8) far.room
              (Distinct-slot (frame c) (frame d) i far.frames hi)
          ∙ is.in_frame i lo hi;
      has_ra =
          switched-away other new e old words.0 words.1
          ∙ pushed-away d old far.room far.other_frame.0
          ∙ is.has_ra;
      has_sp =
          switched-away other new e (old + 8) words.2 words.3
          ∙ pushed-away d (old + 8) far.room far.other_frame.1
          ∙ is.has_sp;
    }

-- `ra`, `sp` or a register of the frame
which : (i : ℕ) → 1 ≤ i → (i ≡ 1) ⊎ (i ≡ 2) ⊎ (3 ≤ i)
which zero pos = absurd (omega arith)
which (suc zero) pos = inl refl
which (suc (suc zero)) pos = inr (inl refl)
which (suc (suc (suc i))) pos = inr (inr (omega arith))

-- Where a switch to the context `old` ends
popped :
    (old : ℕ) (c e : Core) (i : ℕ)
    → HasRoom c
    → Suspended old c e.mem
    → e.reg 1 ≡ e.mem old
    → e.reg 2 ≡ e.mem (old + 8)
    → 1 ≤ i
    → i < 32
    → (pop_registers false e).reg i ≡ c.reg i
unfolding pop_registers
popped old c e i room is at_ra at_sp pos hi =
    let loaded =
      load_words-Loaded (frame c) 3 29 e (omega (arith, room)) (at_sp ∙ is.has_sp)
        (λ lo hi'. absurd (omega arith)) in
    let d = load_words (indices 3 29) e in
    elim (which i pos) as (λ x. (pop_registers false e).reg i ≡ c.reg i) [
      | inl one ↦
          raise-other d i (λ k. omega (arith, one, k))
          ∙ loaded.leaves i (omega (arith, one))
          ∙ subst (λ k. e.reg k ≡ c.reg k) (sym one) (at_ra ∙ is.has_ra)
      | inr (inl two) ↦
          subst (λ k. (raise_sp d).reg k ≡ c.reg k) (sym two) (raise-sp d c room loaded.same_sp)
      | inr (inr more) ↦
          raise-other d i (λ k. omega (arith, more, k))
          ∙ loaded.loads i pos more hi
          ∙ is.in_frame i more hi
    ]

switched-to :
    (other old : ℕ) (d : Core)
    → let e = context_switch other old d in (e.reg 1 ≡ e.mem old) × (e.reg 2 ≡ e.mem (old + 8))
unfolding context_switch
switched-to other old d = (refl, refl)

-- A thread that the switch of another thread goes back to has all its registers again: `ra`, `sp` and `x3` to `x31`.
switch-back :
    (old other : ℕ) (c d : Core) (i : ℕ)
    → HasRoom c
    → KeptApart old c other d
    → Suspended old c d.mem
    → 1 ≤ i
    → i < 32
    → (pop_registers false (context_switch other old (push_registers false d))).reg i ≡ c.reg i
switch-back old other c d i room far is pos hi =
    let e = context_switch other old (push_registers false d) in
    let (ra, sp) = switched-to other old (push_registers false d) in
    popped old c e i room (Suspended-switch old other old c d far is) ra sp pos hi

-- The words that keep the registers of a suspended thread
abbrev pub Untouched : ℕ → Core → Memory → Memory → Type 0
Untouched old c m m' =
    (m' old ≡ m old)
    × (m' (old + 8) ≡ m (old + 8))
    × ((j : ℕ) → 3 ≤ j → j < 32 → m' (frame c + j * 8) ≡ m (frame c + j * 8))

-- A thread switches away with the registers `c`, and later another one, with the registers `d`, switches back to
-- it. If the words that keep the registers are as they were before that second switch, and both threads have
-- room on stacks that do not overlap each other or the contexts, the first thread goes on with the `ra`, `sp`
-- and `x3` to `x31` that it had.
pub switch_back-switch :
    (old new other : ℕ) (c d : Core) (i : ℕ)
    → HasRoom c
    → Clear (frame c) old
    → KeptApart old c other d
    → Untouched old c (context_switch old new (push_registers false c)).mem d.mem
    → 1 ≤ i
    → i < 32
    → (pop_registers false (context_switch other old (push_registers false d))).reg i ≡ c.reg i
switch_back-switch old new other c d i room clear far (ra, sp, words) pos hi =
    let is = switch-Suspended old new c room clear in
    switch-back old other c d i room far
      (record {
        in_frame = λ j lo hi'. words j lo hi' ∙ is.in_frame j lo hi';
        has_ra = ra ∙ is.has_ra;
        has_sp = sp ∙ is.has_sp;
      })
      pos hi
