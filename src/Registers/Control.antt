-- ===== src/Registers/Control.antt =====
-- The control registers of h/_riscV.hpp: reading, writing, and setting and clearing the bits of a mask.
use oskernel_riscv.Base.{
  subst, ℕ, zero, suc, ◌+◌, ◌*◌, ◌/◌, ◌%◌, ◌^◌, ◌<◌, ◌≡◌, sym, ap, ◌∙◌, Bool, true, false, not,
  ◌&&◌, ◌||◌, arith, ◌==◌, if◌then◌else◌,
}
use oskernel_riscv.Trap.{clear_spp}

pub record Control : Type 0 where
  pub scause : ℕ
  pub sepc : ℕ
  pub stvec : ℕ
  pub stval : ℕ
  pub sip : ℕ
  pub sstatus : ℕ

-- The lowest bit, and the bit with a number
abbrev pub lowest : ℕ → Bool
lowest a = a % 2 == 1

abbrev pub bit : ℕ → ℕ → Bool
bit zero a = lowest a
bit (suc i) a = bit i (a / 2)

-- Two numbers of `w` bits, combined bit by bit
pub combine : (Bool → Bool → Bool) → ℕ → ℕ → ℕ → ℕ
combine f zero a b = 0
combine f (suc w) a b = (if f (lowest a) (lowest b) then 1 else 0) + 2 * combine f w (a / 2) (b / 2)

-- `csrs` and `csrc`
unfoldable pub set_mask : ℕ → ℕ → ℕ
unfolding combine
set_mask a mask = combine ◌||◌ 64 a mask

unfoldable pub clear_mask : ℕ → ℕ → ℕ
unfolding combine
clear_mask a mask = combine (λ x y. x && not y) 64 a mask

abbrev pub r_scause : Control → ℕ
r_scause c = c.scause

abbrev pub r_sepc : Control → ℕ
r_sepc c = c.sepc

abbrev pub r_stvec : Control → ℕ
r_stvec c = c.stvec

abbrev pub r_stval : Control → ℕ
r_stval c = c.stval

abbrev pub r_sip : Control → ℕ
r_sip c = c.sip

abbrev pub r_sstatus : Control → ℕ
r_sstatus c = c.sstatus

abbrev pub w_scause : ℕ → Control → Control
w_scause v c = record c { scause = v }

abbrev pub w_sepc : ℕ → Control → Control
w_sepc v c = record c { sepc = v }

abbrev pub w_stvec : ℕ → Control → Control
w_stvec v c = record c { stvec = v }

abbrev pub w_stval : ℕ → Control → Control
w_stval v c = record c { stval = v }

abbrev pub w_sip : ℕ → Control → Control
w_sip v c = record c { sip = v }

abbrev pub w_sstatus : ℕ → Control → Control
w_sstatus v c = record c { sstatus = v }

-- `BitMaskSip` and `BitMaskSstatus`
abbrev pub sip_ssip : ℕ
sip_ssip = 2 ^ 1

abbrev pub sip_stip : ℕ
sip_stip = 2 ^ 5

abbrev pub sip_seip : ℕ
sip_seip = 2 ^ 9

abbrev pub sstatus_sie : ℕ
sstatus_sie = 2 ^ 1

abbrev pub sstatus_spie : ℕ
sstatus_spie = 2 ^ 5

abbrev pub sstatus_spp : ℕ
sstatus_spp = 2 ^ 8

abbrev pub ms_sip : ℕ → Control → Control
ms_sip mask c = record c { sip = set_mask c.sip mask }

abbrev pub mc_sip : ℕ → Control → Control
mc_sip mask c = record c { sip = clear_mask c.sip mask }

abbrev pub ms_sstatus : ℕ → Control → Control
ms_sstatus mask c = record c { sstatus = set_mask c.sstatus mask }

abbrev pub mc_sstatus : ℕ → Control → Control
mc_sstatus mask c = record c { sstatus = clear_mask c.sstatus mask }

-- `popSppSpieChangeMod` up to its `sret`
abbrev pub pop_spp_spie_change_mod : ℕ → Control → Control
pop_spp_spie_change_mod ra c = w_sepc ra (mc_sstatus sstatus_spp c)

put_lowest :
    (t : Bool) (r : ℕ)
    → (lowest ((if t then 1 else 0) + 2 * r) ≡ t) × (((if t then 1 else 0) + 2 * r) / 2 ≡ r)
put_lowest true r = (ground arith, omega arith)
put_lowest false r = (ground arith, omega arith)

halves :
    (f : Bool → Bool → Bool) (w a b : ℕ)
    → (lowest (combine f (suc w) a b) ≡ f (lowest a) (lowest b))
      × (combine f (suc w) a b / 2 ≡ combine f w (a / 2) (b / 2))
unfolding combine
halves f w a b = put_lowest (f (lowest a) (lowest b)) (combine f w (a / 2) (b / 2))

combine-bit :
    (f : Bool → Bool → Bool) (w i a b : ℕ) → i < w → bit i (combine f w a b) ≡ f (bit i a) (bit i b)
combine-bit f zero i a b lt = absurd (omega arith)
combine-bit f (suc w) zero a b lt = (halves f w a b).0
combine-bit f (suc w) (suc i) a b lt =
    ap (bit i) (halves f w a b).1 ∙ combine-bit f w i (a / 2) (b / 2) (omega arith)

abbrev clears : Bool → Bool → Bool
clears x y = x && not y

clears-even :
    (w a b : ℕ) → combine clears (suc w) a (2 * b) ≡ a % 2 + 2 * combine clears w (a / 2) b
unfolding combine
clears-even w a b =
    let even : lowest (2 * b) ≡ false = ground arith in
    let half : 2 * b / 2 ≡ b = omega arith in
    rw (even, half) (by_parity (combine clears w (a / 2) b))
  where
    by_parity : (r : ℕ) → (if lowest a && true then 1 else 0) + 2 * r ≡ a % 2 + 2 * r
    by_parity r = ground arith

-- Without a mask nothing is cleared.
cleared-nothing : (w a : ℕ) → a < 2 ^ w → combine clears w a 0 ≡ a
unfolding combine
cleared-nothing zero a lt = omega (arith, lt)
cleared-nothing (suc w) a lt =
    omega (arith, clears-even w a 0, cleared-nothing w (a / 2) (omega (arith, lt)))

cleared_lowest :
    (w a : ℕ)
    → combine clears w (a / 2) 0 ≡ a / 2
    → combine clears (suc w) a 1 + (if lowest a then 1 else 0) ≡ a
unfolding combine
cleared_lowest w a rest = rw rest (by_parity a)
  where
    by_parity :
        (n : ℕ)
        → (if lowest n && false then 1 else 0) + 2 * (n / 2) + (if lowest n then 1 else 0) ≡ n
    by_parity n = ground arith

cleared_higher :
    (n a b : ℕ) (t : Bool)
    → combine clears n (a / 2) b + (if t then b else 0) ≡ a / 2
    → combine clears (suc n) a (2 * b) + (if t then 2 * b else 0) ≡ a
cleared_higher n a b true rest = omega (arith, clears-even n a b, rest)
cleared_higher n a b false rest = omega (arith, clears-even n a b, rest)

-- A single bit, of a number with `k + 1 + w` bits
cleared-bit :
    (k w a : ℕ)
    → a < 2 ^ (k + suc w)
    → combine clears (k + suc w) a (2 ^ k) + (if bit k a then 2 ^ k else 0) ≡ a
unfolding combine
cleared-bit zero w a lt =
    let width : 0 + suc w ≡ suc w = omega arith in
    let small : a < 2 ^ suc w = subst (λ n. a < 2 ^ n) width lt in
    let rest = cleared-nothing w (a / 2) (omega (arith, small)) in
    subst (λ n. combine clears n a 1 + (if lowest a then 1 else 0) ≡ a) (sym width)
      (cleared_lowest w a rest)
cleared-bit (suc k) w a lt =
    let width : suc k + suc w ≡ suc (k + suc w) = omega arith in
    let power : 2 ^ suc k ≡ 2 * 2 ^ k = omega arith in
    let small : a < 2 ^ suc (k + suc w) = subst (λ n. a < 2 ^ n) width lt in
    let rest = cleared-bit k w (a / 2) (omega (arith, small)) in
    subst (λ n. combine clears n a (2 ^ suc k) + (if bit (suc k) a then 2 ^ suc k else 0) ≡ a)
      (sym width)
      (subst (λ b. combine clears (suc (k + suc w)) a b + (if bit k (a / 2) then b else 0) ≡ a)
        (sym power) (cleared_higher (k + suc w) a (2 ^ k) (bit k (a / 2)) rest))

without : (s r : ℕ) → r + (if bit 8 s then 2 ^ 8 else 0) ≡ s → r ≡ clear_spp s
without s r sum =
    let high : s / 2 / 2 / 2 / 2 / 2 / 2 / 2 / 2 ≡ s / 256 = omega arith in
    ground (arith, high, sum)

-- `mc_sstatus(SSTATUS_SPP)` takes 2⁸ away from a status that has this bit, and leaves all others as they are.
pub mc_sstatus-clear_spp :
    (c : Control)
    → r_sstatus c < 2 ^ 64
    → r_sstatus (mc_sstatus sstatus_spp c) ≡ clear_spp (r_sstatus c)
unfolding clear_mask
mc_sstatus-clear_spp c lt =
    without (r_sstatus c) (clear_mask (r_sstatus c) sstatus_spp) (cleared-bit 8 55 (r_sstatus c) lt)

-- The four mask operations: bit `i` of `sip` and of `sstatus` afterwards, for each of the 64 bits.
pub mask_bits :
    (c : Control) (mask i : ℕ)
    → i < 64
    → (bit i (r_sip (ms_sip mask c)) ≡ (bit i (r_sip c) || bit i mask))
      × (bit i (r_sip (mc_sip mask c)) ≡ (bit i (r_sip c) && not (bit i mask)))
      × (bit i (r_sstatus (ms_sstatus mask c)) ≡ (bit i (r_sstatus c) || bit i mask))
      × (bit i (r_sstatus (mc_sstatus mask c)) ≡ (bit i (r_sstatus c) && not (bit i mask)))
unfolding set_mask clear_mask
mask_bits c mask i lt = (
  combine-bit ◌||◌ 64 i c.sip mask lt,
  combine-bit clears 64 i c.sip mask lt,
  combine-bit ◌||◌ 64 i c.sstatus mask lt,
  combine-bit clears 64 i c.sstatus mask lt,
)
