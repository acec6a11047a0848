-- ===== src/Elements/Refine.antt =====
-- The elements on the heap implement the list of pointers.
use oskernel_riscv.Base.{ℕ, ◌≡◌, subst, inr, some, [], ◌∷◌, arith}
use oskernel_riscv.Allocator.{Memory, Layout, Heap}
use oskernel_riscv.Allocator.Chain.{Blocks}
use oskernel_riscv.Allocator.Valid.{IsLayout}
use oskernel_riscv.Queue
use oskernel_riscv.Queue.Ends
use oskernel_riscv.Elements.{Ends, peek_first, peek_last, datum, next_of}
use oskernel_riscv.Elements.Links.{Each-last, Cells, Leads, last_addr, data_of, IsElem}
use oskernel_riscv.Elements.Turned.{Holds, elems, elem_real}
use oskernel_riscv.Elements.Operations.{
  Op, adds_first, adds_last, removes, inserts, removes_first, removes_last, shows_first, shows_last,
  pointer, exec, model,
}
use oskernel_riscv.Elements.Outcomes.{Refined, Outcome, unchanged}
use oskernel_riscv.Elements.Adding.{adds_first-Outcome, adds_last-Outcome, inserts-Outcome}
use oskernel_riscv.Elements.Removing.{removes-Outcome, removes_first-Outcome, removes_last-Outcome}

last_held :
    (m : Memory) (p e x : ℕ) (c : Cells) (q : ℕ)
    → Leads m p ((e, x) ∷ c) q
    → datum m (last_addr e c) ≡ Queue.Ends.peek_last (data_of ((e, x) ∷ c))
last_held m p e x [] q (a, z, w, s) = w
last_held m p e x ((d, y) ∷ c) q (a, z, w, s) = last_held m (next_of m e) d y c q s

module _ (l : Layout) (h : Heap) (fs ts : Blocks) (q : Ends) (cs : Cells) (is : IsLayout l)
    (holds : Holds l h fs ts q cs) where
  pub shows_first-Outcome : Outcome l h fs ts cs shows_first (exec l shows_first q h)
  unfolding exec model
  shows_first-Outcome = inr (
      subst (λ x. Refined l h ts cs (pointer x, data_of cs) (some (pointer (peek_first q h), q, h)))
        (at cs holds) (unchanged l h fs ts q cs is holds (pointer (peek_first q h))))
    where
      at : (c : Cells) → Holds l h fs ts q c → peek_first q h ≡ Queue.Ends.peek_first (data_of c)
      at [] is' = ground (arith, is'.links)
      at ((e, x) ∷ c) is' =
          let (here, real, held, more) = is'.links in ground (arith, here, real, held)

  pub shows_last-Outcome : Outcome l h fs ts cs shows_last (exec l shows_last q h)
  unfolding exec model
  shows_last-Outcome = inr (
      subst (λ x. Refined l h ts cs (pointer x, data_of cs) (some (pointer (peek_last q h), q, h)))
        (at cs holds) (unchanged l h fs ts q cs is holds (pointer (peek_last q h))))
    where
      at : (c : Cells) → Holds l h fs ts q c → peek_last q h ≡ Queue.Ends.peek_last (data_of c)
      at [] is' = ground (arith, is'.last)
      at ((e, x) ∷ c) is' =
          let real =
            elem_real l (last_addr e c)
              (Each-last (IsElem l) e x c (elems l ts ((e, x) ∷ c) is'.own)) in
          rw (is'.last, real) (last_held h.mem q.head e x c 0 is'.links)

-- Every operation, on elements in memory that hold the list of pointers `data_of cs`: either it adds a pointer,
-- no block is free, and it writes through the null pointer that the allocator gives; or it ends, with the result
-- that the same operation has on the list of pointers, and elements then hold the list of pointers that this
-- leaves. The heap stays well-formed, and the elements of all other lists keep their contents and their blocks.
pub exec-model :
    (l : Layout) (h : Heap) (fs ts : Blocks) (q : Ends) (cs : Cells) (o : Op)
    → IsLayout l
    → Holds l h fs ts q cs
    → Outcome l h fs ts cs o (exec l o q h)
exec-model l h fs ts q cs (adds_first p) is holds = adds_first-Outcome l h fs ts q cs is holds p
exec-model l h fs ts q cs (adds_last p) is holds = adds_last-Outcome l h fs ts q cs is holds p
exec-model l h fs ts q cs (removes p) is holds = removes-Outcome l h fs ts q cs is holds p
exec-model l h fs ts q cs (inserts cmp p) is holds = inserts-Outcome l h fs ts q cs is holds cmp p
exec-model l h fs ts q cs removes_first is holds = removes_first-Outcome l h fs ts q cs is holds
exec-model l h fs ts q cs removes_last is holds = removes_last-Outcome l h fs ts q cs is holds
exec-model l h fs ts q cs shows_first is holds = shows_first-Outcome l h fs ts q cs is holds
exec-model l h fs ts q cs shows_last is holds = shows_last-Outcome l h fs ts q cs is holds
