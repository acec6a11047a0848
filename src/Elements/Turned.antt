-- ===== src/Elements/Turned.antt =====
-- A list on the heap, and a new next pointer for one of its elements.
use oskernel_riscv.Base.{
  ℕ, ◌+◌, ◌-◌, ◌<◌, ◌≡◌, ◌≢◌, refl, sym, subst, true, false, [], ◌∷◌, arith, ◌==◌, if◌then◌else◌,
  Bool-cases, inl, inr, length,
}
use oskernel_riscv.Allocator.{Memory, Layout, Heap, store, fuel_of}
use oskernel_riscv.Allocator.Chain.{Blocks}
use oskernel_riscv.Allocator.Valid.{Valid, taken_fits}
use oskernel_riscv.Elements.{Ends, set_next}
use oskernel_riscv.Elements.Links.{
  Cells, Leads, last_addr, is_at, Apart, Each, IsElem, Each-last, Each-other, words_differ,
  Leads-turn,
}
use oskernel_riscv.Elements.Owned.{Own, has_block, elem-IsData, store-Valid, length-Own}

-- The blocks `ts` are taken, and the elements `cs` of the list `q` are among them.
pub record Holds (l : Layout) (h : Heap) (fs ts : Blocks) (q : Ends) (cs : Cells) : Type 0 where
  pub valid : Valid l h fs ts
  pub links : Leads h.mem q.head cs 0
  pub last : q.tail ≡ last_addr 0 cs
  pub own : Each (Own l ts) cs
  pub apart : Apart cs

-- What a change of the list `cs` to `cs'` leaves alone: the elements of all other lists.
abbrev pub Others : Layout → Heap → Blocks → Cells → Heap → Blocks → Cells → Type 0
Others l h ts cs h' ts' cs' =
    (e : ℕ)
    → Own l ts e
    → is_at e cs ≡ false
    → (h'.mem e ≡ h.mem e)
      × (h'.mem (e + 8) ≡ h.mem (e + 8))
      × (has_block (e - 16) ts' ≡ true)
      × (is_at e cs' ≡ false)

-- The loops' fuel is enough.
pub Holds-fits :
    (l : Layout) (h : Heap) (fs ts : Blocks) (q : Ends) (cs : Cells)
    → Holds l h fs ts q cs
    → length cs < fuel_of h
Holds-fits l h fs ts q cs is =
    omega (arith, length-Own l cs ts is.own is.apart, taken_fits is.valid)

pub elems : (l : Layout) (ts : Blocks) (cs : Cells) → Each (Own l ts) cs → Each (IsElem l) cs
elems l ts [] own = tt
elems l ts ((e, x) ∷ cs) (mine, own) = (mine.0, elems l ts cs own)

-- `prev->next = v`, where there is a `prev`.
abbrev pub turned : ℕ → ℕ → Memory → Memory
turned prev v m = if prev == 0 then m else store m (prev + 8) v

pub turn_heap-mem :
    (prev v : ℕ) (h : Heap)
    → (if prev == 0 then h else set_next prev v h) ≡ record h { mem = turned prev v h.mem }
turn_heap-mem prev v h = elim (Bool-cases (prev == 0)) [ inl e ↦ rw e refl | inr e ↦ rw e refl ]

pub elem_real : (l : Layout) (e : ℕ) → IsElem l e → (e == 0) ≡ false
elem_real l e (lo, k) = ground (arith, lo)

-- The last element of `xs`, or `head` before the first, leads to `v`.
pub turned-Leads :
    (l : Layout) (m : Memory) (p : ℕ) (xs : Cells) (q v : ℕ)
    → Each (IsElem l) xs
    → Apart xs
    → Leads m p xs q
    → Leads (turned (last_addr 0 xs) v m) (if last_addr 0 xs == 0 then v else p) xs v
turned-Leads l m p [] q v el far s = refl
turned-Leads l m p ((d, x) ∷ xs) q v el far s =
    subst
      (λ b.
        Leads (if b then m else store m (last_addr d xs + 8) v) (if b then v else p) ((d, x) ∷ xs)
          v)
      (sym (elem_real l (last_addr d xs) (Each-last (IsElem l) d x xs el)))
      (Leads-turn l m p d x xs q v el far s)

pub turned-other :
    (l : Layout) (m : Memory) (xs : Cells) (v e : ℕ)
    → Each (IsElem l) xs
    → IsElem l e
    → is_at e xs ≡ false
    → (turned (last_addr 0 xs) v m e ≡ m e) × (turned (last_addr 0 xs) v m (e + 8) ≡ m (e + 8))
unfolding store
turned-other l m [] v e el mine out = (refl, refl)
turned-other l m ((d, x) ∷ xs) v e el mine out =
    let t : ℕ = last_addr d xs in
    let ne : t ≢ e = Each-last (λ k. k ≢ e) d x xs (Each-other e ((d, x) ∷ xs) out) in
    let (n₁, n₂, n₃) = words_differ l e t mine (Each-last (IsElem l) d x xs el) (λ k. ne (sym k)) in
    rw (elem_real l t (Each-last (IsElem l) d x xs el)) (ground (arith, n₁), ground (arith, n₂))

pub turned-Valid :
    (l : Layout) (h : Heap) (fs ts : Blocks) (xs : Cells) (v : ℕ)
    → Each (IsElem l) xs
    → Valid l h fs ts
    → Valid l (record h { mem = turned (last_addr 0 xs) v h.mem }) fs ts
turned-Valid l h fs ts [] v el is = is
turned-Valid l h fs ts ((d, x) ∷ xs) v el is =
    let mine = Each-last (IsElem l) d x xs el in
    rw (elem_real l (last_addr d xs) mine)
      (store-Valid l h (last_addr d xs + 8) v fs ts (elem-IsData l (last_addr d xs) mine).1 is)
