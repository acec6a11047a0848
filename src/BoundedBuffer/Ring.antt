-- ===== src/BoundedBuffer/Ring.antt =====
-- Positions in a ring of `cap` cells.
use oskernel_riscv.Base.{
  ℕ, zero, suc, ◌+◌, ◌-◌, ◌%◌, ◌≤◌, ◌<◌, ◌≡◌, ◌≢◌, sym, ◌∙◌, List, [], ◌∷◌, ◌++◌, arith, length,
  if◌then◌else◌, Bool-cases, ◌⊎◌, inl, inr, leb, subst,
}
use native.Mathlib.Nat.{mod-add-mod, mod-lt, mod-eq_of_lt, mod-eq-sub-mod}
use oskernel_riscv.BoundedBuffer.{place_at}

-- The values `xs` stand in the ring from the position `i` on.
abbrev pub Window : ℕ → (ℕ → ℕ) → ℕ → List ℕ → Type 0
Window cap f i [] = Unit {0}
Window cap f i (x ∷ xs) = (f (i % cap) ≡ x) × Window cap f (i + 1) xs

pub next_cell : (cap i : ℕ) → (i % cap + 1) % cap ≡ (i + 1) % cap
next_cell cap i = mod-add-mod i cap 1

-- A cell of the ring and the one `d` cells behind it.
behind :
    (cap i d : ℕ)
    → i % cap < cap
    → d < cap
    → ((i % cap + d < cap) × ((i + d) % cap ≡ i % cap + d))
      ⊎ ((cap ≤ i % cap + d) × ((i + d) % cap ≡ i % cap + d - cap))
behind cap i d low few =
    let e : (i + d) % cap ≡ (i % cap + d) % cap = sym (mod-add-mod i cap d) in
    elim (Bool-cases (leb cap (i % cap + d))) [
      | inl ge ↦
          let le : cap ≤ i % cap + d = ground arith in
          let low' : i % cap + d - cap < cap = omega arith in
          inr (le, e ∙ (mod-eq-sub-mod le ∙ mod-eq_of_lt low'))
      | inr lt ↦ let lt' : i % cap + d < cap = ground arith in inl (lt', e ∙ mod-eq_of_lt lt')
    ]

pub cell_low : (cap i : ℕ) → 0 < cap → i % cap < cap
cell_low cap i pos = mod-lt i pos

-- Two positions less than a round apart are different cells.
pub cells_differ : (cap i d : ℕ) → 0 < d → d < cap → i % cap ≢ (i + d) % cap
cells_differ cap i d some few e = elim (behind cap i d (cell_low cap i (omega arith)) few) [
  | inl (lt, f) ↦ omega arith
  | inr (ge, f) ↦ omega (arith, cell_low cap i (omega arith))
]

-- What `getCnt` computes from the cells of two positions.
pub distance :
    (cap i d : ℕ)
    → d < cap
    → (if leb (i % cap) ((i + d) % cap)
        then (i + d) % cap - i % cap
        else cap - i % cap + (i + d) % cap)
      ≡ d
distance cap i d few =
    let low = cell_low cap i (omega arith) in
    elim (behind cap i d low few) [
      | inl (lt, f) ↦ ground (arith, f)
      | inr (ge, f) ↦ ground (arith, f, ge, low, few)
    ]

-- A write behind the values is beside them.
pub Window-place_at :
    (cap i : ℕ) (f : ℕ → ℕ) (v d : ℕ) (xs : List ℕ)
    → length xs ≤ d
    → d < cap
    → Window cap f i xs
    → Window cap (place_at f ((i + d) % cap) v) i xs
Window-place_at cap i f v d [] le few w = tt
Window-place_at cap i f v zero (x ∷ xs) le few w = absurd (omega arith)
Window-place_at cap i f v (suc d) (x ∷ xs) le few (e, w) =
    let other : i % cap ≢ (i + suc d) % cap = cells_differ cap i (suc d) (omega arith) few in
    let same : i + 1 + d ≡ i + suc d = omega arith in
    (
      ground (arith, other, e),
      subst (λ j. Window cap (place_at f (j % cap) v) (i + 1) xs) same
          (Window-place_at cap (i + 1) f v d xs (omega arith) (omega arith) w),
    )

-- The value written next to the values is the last of them.
pub Window-add :
    (cap i : ℕ) (f : ℕ → ℕ) (v : ℕ) (xs : List ℕ)
    → Window cap f i xs
    → f ((i + length xs) % cap) ≡ v
    → Window cap f i (xs ++ v ∷ [])
Window-add cap i f v [] w e = (ground (arith, e), tt)
Window-add cap i f v (x ∷ xs) (h, w) e =
    let same : i + suc (length xs) ≡ i + 1 + length xs = omega arith in
    (h, Window-add cap (i + 1) f v xs w (subst (λ j. f (j % cap) ≡ v) same e))
