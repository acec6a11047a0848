-- ===== src/Elements/Outcomes.antt =====
-- What an operation on the elements must do to implement the same operation on the list of pointers.
use oskernel_riscv.Base.{
  ℕ, ◌≡◌, refl, sym, ◌∙◌, subst, ◌⊎◌, inl, inr, true, false, Option, none, some, List, [], ◌∷◌,
  ◌++◌, arith, ◌==◌,
}
use oskernel_riscv.Allocator.{Layout, Heap}
use oskernel_riscv.Allocator.Chain.{Blocks}
use oskernel_riscv.Allocator.Valid.{IsLayout}
use oskernel_riscv.Elements.{Ends, put_between, take_off}
use oskernel_riscv.Elements.Links.{
  Each-last, Each-split, Cells, head-Leads, last_addr, head_addr, data_of, IsElem, Each,
}
use oskernel_riscv.Elements.Turned.{Holds, Others, elems, elem_real}
use oskernel_riscv.Elements.Splice.{put_between-Spliced}
use oskernel_riscv.Elements.Unlink.{take_off-Unlinked}
use oskernel_riscv.Elements.Loops.{data_of-append}
use oskernel_riscv.Elements.Operations.{Op, Answer, nothing, model, is_adding, silently}

-- The result `r` of an operation on the list `cs` agrees with `m`, and no element of another list is touched.
pub record Refined (l : Layout) (h : Heap) (ts : Blocks) (cs : Cells) (m : Answer × List ℕ)
    (r : Option (Answer × Ends × Heap)) : Type 0 where
  pub ends : Ends
  pub after : Heap
  pub free_blocks : Blocks
  pub taken_blocks : Blocks
  pub cells : Cells
  pub ran : r ≡ some (m.0, ends, after)
  pub holds : Holds l after free_blocks taken_blocks ends cells
  pub agrees : data_of cells ≡ m.1
  pub others : Others l h ts cs after taken_blocks cells

-- An operation that needs memory fails with a full heap, and no other fails.
abbrev pub Outcome :
    Layout → Heap → Blocks → Blocks → Cells → Op → Option (Answer × Ends × Heap) → Type 0
Outcome l h fs ts cs o r =
    ((is_adding o ≡ true) × (fs ≡ []) × (r ≡ none)) ⊎ Refined l h ts cs (model o (data_of cs)) r

middle_real :
    (l : Layout) (xs : Cells) (e x : ℕ) (ys : Cells)
    → Each (IsElem l) (xs ++ (e, x) ∷ ys)
    → (e == 0) ≡ false
middle_real l xs e x ys el = elem_real l e (Each-split (IsElem l) xs ((e, x) ∷ ys) el).1.0

module _ (l : Layout) (h : Heap) (fs ts : Blocks) (q : Ends) (cs : Cells) (is : IsLayout l)
    (holds : Holds l h fs ts q cs) where
  -- Nothing changes.
  pub unchanged : (a : Answer) → Refined l h ts cs (a, data_of cs) (some (a, q, h))
  unchanged a = record {
    ends = q;
    after = h;
    free_blocks = fs;
    taken_blocks = ts;
    cells = cs;
    ran = refl;
    holds = holds;
    agrees = refl;
    others = λ e own out. (refl, refl, own.1, out);
  }

  -- A new element behind `xs` and before `ys`.
  pub added :
      (p : ℕ) (xs ys : Cells) (ps : List ℕ) (r : Option (Ends × Heap))
      → xs ++ ys ≡ cs
      → data_of xs ++ p ∷ data_of ys ≡ ps
      → put_between l p (last_addr 0 xs) (head_addr ys) q h ≡ r
      → ((fs ≡ []) × (silently r ≡ none)) ⊎ Refined l h ts cs (nothing, ps) (silently r)
  added p xs ys ps r split agree run =
      elim (put_between-Spliced l p q h fs ts xs ys is
        (subst (Holds l h fs ts q) (sym split) holds)) [
          | inl (full, e) ↦ inl (full, rw (sym run ∙ e) refl)
          | inr s ↦ inr (record {
            ends = s.ends;
            after = s.after;
            free_blocks = s.free_blocks;
            taken_blocks = s.taken_blocks;
            cells = xs ++ (s.elem, p) ∷ ys;
            ran = rw (sym run ∙ s.ran) refl;
            holds = s.holds;
            agrees = data_of-append xs ((s.elem, p) ∷ ys) ∙ agree;
            others =
                subst (λ c. Others l h ts c s.after s.taken_blocks (xs ++ (s.elem, p) ∷ ys)) split
                  s.others;
          })
        ]

  -- The element behind `xs` and before `ys` is gone.
  pub gone :
      (xs : Cells) (e x : ℕ) (ys : Cells) (a : Answer) (r : Option (Answer × Ends × Heap))
      → xs ++ (e, x) ∷ ys ≡ cs
      → ((k : Ends) (g : Heap)
          → take_off (last_addr 0 xs) e q h ≡ some (true, k, g)
          → r ≡ some (a, k, g))
      → Refined l h ts cs (a, data_of (xs ++ ys)) r
  gone xs e x ys a r split run =
      let s =
        take_off-Unlinked l e x q h fs ts xs ys is (subst (Holds l h fs ts q) (sym split) holds) in
      record {
        ends = s.ends;
        after = s.after;
        free_blocks = s.free_blocks;
        taken_blocks = s.taken_blocks;
        cells = xs ++ ys;
        ran = run s.ends s.after s.ran;
        holds = s.holds;
        agrees = refl;
        others = subst (λ c. Others l h ts c s.after s.taken_blocks (xs ++ ys)) split s.others;
      }

  pub head_is : q.head ≡ head_addr cs
  head_is = head-Leads h.mem q.head cs holds.links

  pub real_cells : (xs : Cells) (e x : ℕ) (ys : Cells) → xs ++ (e, x) ∷ ys ≡ cs → (e == 0) ≡ false
  real_cells xs e x ys split =
      middle_real l xs e x ys (subst (Each (IsElem l)) (sym split) (elems l ts cs holds.own))

  pub ends_agree : (c : Cells) → Holds l h fs ts q c → (q.head == 0) ≡ (q.tail == 0)
  ends_agree [] is = ground (arith, is.links, is.last)
  ends_agree ((e, x) ∷ c) is =
      let real = elems l ts ((e, x) ∷ c) is.own in
      let first = elem_real l e real.0 in
      let behind = elem_real l (last_addr e c) (Each-last (IsElem l) e x c real) in
      rw (is.links.0, is.last, first, behind) refl
