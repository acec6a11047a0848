-- ===== src/Elements/Removing.antt =====
-- `removeSpec`, `removeFirst` and `removeLast` on the elements and on the list of pointers.
use oskernel_riscv.Base.{
  length-append, ℕ, ◌≡◌, ◌≢◌, refl, sym, ap, ◌∙◌, subst, inl, inr, true, false, Option, none, some,
  [], ◌∷◌, ◌++◌, arith, ◌==◌, if◌then◌else◌, ◌>>=◌, Bool-cases, append-nil,
}
use oskernel_riscv.Base.Int.{ℤ}
use oskernel_riscv.Allocator.{Memory, Layout, Heap, kmfree, fuel_of}
use oskernel_riscv.Allocator.Chain.{Blocks}
use oskernel_riscv.Allocator.Valid.{IsLayout}
use oskernel_riscv.Queue
use oskernel_riscv.Queue.Ends
use oskernel_riscv.Elements.{
  before_tail, Ends, empty, remove_first, remove_last, remove_spec, take_off, set_next, datum,
  next_of,
}
use oskernel_riscv.Elements.Links.{
  Apart-split, Leads-split, Each-other, Each-last, Each-split, Cells, Leads, last_addr, head_addr,
  data_of, front, back, front-back, differs, IsElem, find_spec-walk, before_tail-walk,
}
use oskernel_riscv.Elements.Turned.{turned-other, turn_heap-mem, turned, Holds, Holds-fits, elems}
use oskernel_riscv.Elements.Splice.{last_addr-append}
use oskernel_riscv.Elements.Loops.{data_of-append, removed, remove_loop-removed, last_cell}
use oskernel_riscv.Elements.Operations.{
  removes, removes_first, removes_last, Answer, pointer, found, exec, model,
}
use oskernel_riscv.Elements.Outcomes.{Refined, Outcome, unchanged, gone, head_is, real_cells}

-- The last element that is given back, with an answer and the ends of the list.
abbrev answered : {A : Type 0} → A → Ends → Option (ℤ × Heap) → Option (A × Ends × Heap)
answered a k none = none
answered a k (some (z, h)) = some (a, k, h)

answered-bind :
    {A : Type 0} (a : A) (k : Ends) (o : Option (ℤ × Heap))
    → (o >>= λ r. some (a, k, r.1)) ≡ answered a k o
answered-bind a k none = refl
answered-bind a k (some (z, h)) = refl

reanswer :
    {A B : Type 0} (a : A) (b : B) (k k' i : Ends) (o : Option (ℤ × Heap)) (g : Heap)
    → k ≡ k'
    → answered a k o ≡ some (a, i, g)
    → answered b k' o ≡ some (b, i, g)
reanswer a b k k' i none g same e = absurd (ground (arith, e))
reanswer a b k k' i (some (z, h)) g same e =
    let ends : k ≡ i = ground (arith, e) in
    let heaps : h ≡ g = ground (arith, e) in
    ap (λ (j : Ends). some (b, j, h)) (sym same ∙ ends) ∙ ap (λ (j : Heap). some (b, i, j)) heaps

pointed-bind :
    (x : ℕ) (k : Ends) (o : Option (ℤ × Heap))
    → let first : Option (ℕ × Ends × Heap) = (do r ← o; some (x, k, r.1)) in
      let whole : Option (Answer × Ends × Heap) = (do r ← first; some (pointer r.0, r.1, r.2)) in
      whole ≡ answered (pointer x) k o
pointed-bind x k none = refl
pointed-bind x k (some (z, h)) = refl

-- The two ways to find out whether the first element is the last.
only_one :
    (l : Layout) (h : Heap) (fs ts : Blocks) (q : Ends) (e x : ℕ) (ys : Cells)
    → Holds l h fs ts q ((e, x) ∷ ys)
    → (if next_of h.mem e == 0 then 0 else q.tail) ≡ (if e == q.tail then 0 else q.tail)
only_one l h fs ts q e x [] is = ground (arith, is.links, is.last)
only_one l h fs ts q e x ((d, y) ∷ ys) is =
    let far = Each-last (λ k. k ≢ e) d y ys (Each-other e ((d, y) ∷ ys) is.apart.0) in
    let (here, real, held, (next, more, is_y, rest)) = is.links in
    ground (arith, next, more, is.last, far)

same_ends :
    (q : Ends) (t prev : ℕ)
    → q.tail ≡ t
    → ◌≡◌ {A = Ends}
        (record {
          head = if prev == 0 then 0 else q.head;
          tail = if t == q.tail then prev else q.tail;
        })
        (if prev == 0 then empty else record q { tail = prev })
same_ends q t prev at =
    let here : (t == q.tail) ≡ true = ground (arith, at) in
    elim (Bool-cases (prev == 0)) [
      | inl e ↦ rw (here, e) (ap (λ (v : ℕ). record { head = 0; tail = v }) (ground (arith, e)))
      | inr e ↦ rw (here, e) refl
    ]

-- What `removeLast` does is `take_off` of the last element.
taken_last :
    (l : Layout) (h : Heap) (q : Ends) (t y prev : ℕ) (k : Ends) (g : Heap)
    → q.tail ≡ t
    → q.head ≢ 0
    → next_of h.mem t ≡ 0
    → before_tail (fuel_of h) h.mem t 0 q.head ≡ some prev
    → datum (turned prev 0 h.mem) t ≡ y
    → take_off prev t q h ≡ some (true, k, g)
    → exec l removes_last q h ≡ some (pointer y, k, g)
unfolding exec remove_last take_off
taken_last l h q t y prev k g at real end walk held ran =
    let h₁ : Heap = if prev == 0 then h else set_next prev 0 h in
    let o = kmfree t h₁ in
    let kept : h₁.mem t ≡ y = ap (λ (a : Heap). a.mem t) (turn_heap-mem prev 0 h) ∙ held in
    let there : (q.head == 0) ≡ false = ground (arith, real) in
    let ends : Ends = record {
      head = if prev == 0 then 0 else q.head;
      tail = if t == q.tail then prev else q.tail;
    } in
    let ends' : Ends = if prev == 0 then empty else record q { tail = prev } in
    let same : ends ≡ ends' = same_ends q t prev at in
    let step : take_off prev t q h ≡ answered true ends o = rw end (answered-bind true ends o) in
    rw (there, at, walk)
      (pointed-bind (h₁.mem t) ends' o
        ∙ ap (λ (v : ℕ). answered (pointer v) ends' o) kept
        ∙ reanswer true (pointer y) ends ends' k o g same (sym step ∙ ran))

first_real :
    (m : Memory) (p : ℕ) (xs : Cells) (t y : ℕ) (ys : Cells) (q : ℕ)
    → Leads m p (xs ++ (t, y) ∷ ys) q
    → p ≢ 0
first_real m p [] t y ys q (e, z, w, s) = λ k. z (sym e ∙ k)
first_real m p ((d, x) ∷ xs) t y ys q (e, z, w, s) = λ k. z (sym e ∙ k)

module _ (l : Layout) (h : Heap) (fs ts : Blocks) (q : Ends) (cs : Cells) (is : IsLayout l)
    (holds : Holds l h fs ts q cs) where
  pub removes-Outcome : (p : ℕ) → Outcome l h fs ts cs (removes p) (exec l (removes p) q h)
  unfolding exec model remove_spec Queue.remove_spec
  removes-Outcome p = elim (Bool-cases (p == 0)) [
    | inl null ↦ rw null (inr (unchanged l h fs ts q cs is holds (found false)))
    | inr real ↦
        let walk =
          find_spec-walk (fuel_of h) h.mem p 0 q.head cs holds.links
            (Holds-fits l h fs ts q cs holds) in
        rw (real, walk, remove_loop-removed p cs)
          (inr (at (front (differs p) cs) (back (differs p) cs) (front-back (differs p) cs)))
  ]
    where
      at :
          (xs ys : Cells)
          → xs ++ ys ≡ cs
          → let m = removed xs ys in
            let o =
              if head_addr ys == 0
              then some (false, q, h)
              else take_off (last_addr 0 xs) (head_addr ys) q h in
            Refined l h ts cs (found m.0, m.1) (o >>= λ r. some (found r.0, r.1, r.2))
      at xs [] split =
          let all : xs ≡ cs = sym (append-nil xs) ∙ split in
          subst (λ c. Refined l h ts cs (found false, data_of c) (some (found false, q, h)))
            (sym all) (unchanged l h fs ts q cs is holds (found false))
      at xs ((e, x) ∷ ys) split =
          rw (real_cells l h fs ts q cs is holds xs e x ys split)
            (gone l h fs ts q cs is holds xs e x ys (found true) _ split (λ k g ran. rw ran refl))

  pub removes_first-Outcome : Outcome l h fs ts cs removes_first (exec l removes_first q h)
  unfolding exec model remove_first take_off
  removes_first-Outcome = inr (at cs refl)
    where
      at :
          (c : Cells)
          → c ≡ cs
          → let m = Queue.remove_first (data_of c) in
            Refined l h ts cs
              (pointer m.0, m.1)
              (remove_first q h >>= λ r. some (pointer r.0, r.1, r.2))
      at [] split =
          let none_there : (q.head == 0) ≡ true =
            ground (arith, head_is l h fs ts q cs is holds, split) in
          rw none_there (
            subst (λ c. Refined l h ts cs (pointer 0, data_of c) (some (pointer 0, q, h)))
              (sym split) (unchanged l h fs ts q cs is holds (pointer 0)))
      at ((e, x) ∷ ys) split =
          gone l h fs ts q cs is holds [] e x ys (pointer x) _ split (λ k g ran.
            let holds' = subst (Holds l h fs ts q) (sym split) holds in
            let (here, real, held, more) = holds'.links in
            let o = kmfree e h in
            let next = next_of h.mem e in
            let run =
              sym (
                answered-bind true
                  (record { head = next; tail = if e == q.tail then 0 else q.tail }) o)
              ∙ ran in
            let there : (e == 0) ≡ false = ground (arith, real) in
            rw
              (
                here,
                there,
                held,
                pointed-bind x (record { head = next; tail = if next == 0 then 0 else q.tail }) o,
              )
              (reanswer true (pointer x)
                (record { head = next; tail = if e == q.tail then 0 else q.tail })
                (record { head = next; tail = if next == 0 then 0 else q.tail }) k o g
                (ap (λ (t : ℕ). record { head = next; tail = t })
                  (sym (only_one l h fs ts q e x ys holds')))
                run))

  pub removes_last-Outcome : Outcome l h fs ts cs removes_last (exec l removes_last q h)
  unfolding model
  removes_last-Outcome = inr (at cs refl)
    where
      behind :
          (ys : Cells) (t y : ℕ)
          → ys ++ (t, y) ∷ [] ≡ cs
          → Refined l h ts cs (pointer y, data_of ys) (exec l removes_last q h)
      behind ys t y split =
          let holds' = subst (Holds l h fs ts q) (sym split) holds in
          let (k, to_t, (at, real, is_y, end)) =
            Leads-split h.mem q.head ys ((t, y) ∷ []) 0 holds'.links in
          let (far, last, (out, none_there)) = Apart-split ys ((t, y) ∷ []) holds'.apart in
          let el =
            Each-split (IsElem l) ys ((t, y) ∷ []) (elems l ts (ys ++ (t, y) ∷ []) holds'.own) in
          let fits = Holds-fits l h fs ts q (ys ++ (t, y) ∷ []) holds' in
          let walk =
            before_tail-walk (fuel_of h) h.mem t 0 q.head y ys holds'.links out
              (omega (arith, fits, length-append {A = ℕ × ℕ} ys ((t, y) ∷ []))) in
          subst (λ (c : Cells). Refined l h ts cs (pointer y, data_of c) (exec l removes_last q h))
            (append-nil ys)
            (gone l h fs ts q cs is holds ys t y [] (pointer y) _ split (λ k' g ran.
              taken_last l h q t y (last_addr 0 ys) k' g
                (holds'.last ∙ last_addr-append 0 ys t y [])
                (first_real h.mem q.head ys t y [] 0 holds'.links) end walk
                ((turned-other l h.mem ys 0 t el.0 el.1.0 out).0 ∙ is_y) ran))

      at :
          (c : Cells)
          → c ≡ cs
          → let m = Queue.Ends.remove_last (data_of c) in
            Refined l h ts cs (pointer m.0, m.1) (exec l removes_last q h)
      at [] split =
          let none_there : (q.head == 0) ≡ true =
            ground (arith, head_is l h fs ts q cs is holds, split) in
          unfold exec remove_last in
          rw none_there (
            subst (λ c. Refined l h ts cs (pointer 0, data_of c) (some (pointer 0, q, h)))
              (sym split) (unchanged l h fs ts q cs is holds (pointer 0)))
      at ((e, x) ∷ c) split =
          let (ys, t, y, last) = last_cell e x c in
          let m : Queue.Ends.remove_last (data_of ((e, x) ∷ c)) ≡ (y, data_of ys) =
            ap (λ (d : Cells). Queue.Ends.remove_last (data_of d)) last
            ∙ ap Queue.Ends.remove_last (data_of-append ys ((t, y) ∷ []))
            ∙ (Queue.Ends.remove_last-add_last (data_of ys) y).0 in
          rw m (behind ys t y (sym last ∙ split))
