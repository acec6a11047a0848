-- ===== src/Elements/Adding.antt =====
-- `addFirst`, `addLast` and `insert_sorted` on the elements and on the list of pointers.
use oskernel_riscv.Base.{
  ℕ, ◌≡◌, refl, sym, ap, ◌∙◌, inl, inr, Bool, [], ◌∷◌, ◌++◌, ◌==◌, Bool-cases, append-nil,
}
use oskernel_riscv.Allocator.{Layout, Heap, fuel_of}
use oskernel_riscv.Allocator.Chain.{Blocks}
use oskernel_riscv.Allocator.Valid.{IsLayout}
use oskernel_riscv.Queue
use oskernel_riscv.Elements.{Ends, add_first, add_last, insert_sorted, put_between}
use oskernel_riscv.Elements.Links.{
  Cells, last_addr, head_addr, data_of, front, back, front-back, find_sorted-walk,
}
use oskernel_riscv.Elements.Turned.{Holds, Holds-fits}
use oskernel_riscv.Elements.Loops.{insert_loop-between}
use oskernel_riscv.Elements.Operations.{adds_first, adds_last, inserts, nothing, exec, model}
use oskernel_riscv.Elements.Outcomes.{Outcome, unchanged, added, head_is, ends_agree}

-- `addLast` and `addFirst` put an element between the last one and nothing, and between nothing and the first.
put_last :
    (l : Layout) (p : ℕ) (q : Ends) (h : Heap) → put_between l p q.tail 0 q h ≡ add_last l p q h
unfolding add_last put_between
put_last l p q h = elim (Bool-cases (q.tail == 0)) [ inl e ↦ rw e refl | inr e ↦ rw e refl ]

put_first :
    (l : Layout) (p : ℕ) (q : Ends) (h : Heap)
    → (q.head == 0) ≡ (q.tail == 0)
    → put_between l p 0 q.head q h ≡ add_first l p q h
unfolding add_first put_between
put_first l p q h e = rw e refl

module _ (l : Layout) (h : Heap) (fs ts : Blocks) (q : Ends) (cs : Cells) (is : IsLayout l)
    (holds : Holds l h fs ts q cs) where
  pub adds_last-Outcome : (p : ℕ) → Outcome l h fs ts cs (adds_last p) (exec l (adds_last p) q h)
  unfolding exec model add_last put_between
  adds_last-Outcome p =
      elim (added l h fs ts q cs is holds p cs [] (data_of cs ++ p ∷ []) (add_last l p q h)
        (append-nil cs) refl
        (ap (λ (t : ℕ). put_between l p t 0 q h) (sym holds.last) ∙ put_last l p q h)) [
          | inl (full, e) ↦ inl (refl, full, e)
          | inr s ↦ inr s
        ]

  pub adds_first-Outcome : (p : ℕ) → Outcome l h fs ts cs (adds_first p) (exec l (adds_first p) q h)
  unfolding exec model add_first put_between
  adds_first-Outcome p =
      elim (added l h fs ts q cs is holds p [] cs (p ∷ data_of cs) (add_first l p q h) refl refl (
        ap (λ (c : ℕ). put_between l p 0 c q h) (sym (head_is l h fs ts q cs is holds))
        ∙ put_first l p q h (ends_agree l h fs ts q cs is holds cs holds))) [
          | inl (full, e) ↦ inl (refl, full, e)
          | inr s ↦ inr s
        ]

  pub inserts-Outcome :
      (cmp : ℕ → ℕ → Bool) (p : ℕ)
      → Outcome l h fs ts cs (inserts cmp p) (exec l (inserts cmp p) q h)
  unfolding exec model insert_sorted Queue.insert_sorted
  inserts-Outcome cmp p = elim (Bool-cases (p == 0)) [
    | inl null ↦ rw null (inr (unchanged l h fs ts q cs is holds nothing))
    | inr real ↦
        let xs = front (λ x. cmp x p) cs in
        let ys = back (λ x. cmp x p) cs in
        let walk =
          find_sorted-walk (fuel_of h) h.mem cmp p 0 q.head cs holds.links
            (Holds-fits l h fs ts q cs holds) in
        rw (real, walk)
          (elim (added l h fs ts q cs is holds p xs ys (Queue.insert_loop cmp p (data_of cs))
            (put_between l p (last_addr 0 xs) (head_addr ys) q h) (front-back (λ x. cmp x p) cs)
            (sym (insert_loop-between cmp p cs)) refl) [
              | inl (full, e) ↦ inl (refl, full, e)
              | inr s ↦ inr s
            ])
  ]
