-- ===== src/Elements/Splice.antt =====
-- A new element between two elements of a list.
use oskernel_riscv.Base.{
  ℕ, ◌+◌, ◌-◌, ◌≡◌, ◌≢◌, refl, sym, ap, ◌∙◌, subst, ◌⊎◌, false, ◌||◌, Option, none, some, [], ◌∷◌,
  ◌++◌, arith, ◌==◌, if◌then◌else◌, inl, inr,
}
use oskernel_riscv.Allocator.{Memory, Layout, Heap}
use oskernel_riscv.Allocator.Chain.{Blocks}
use oskernel_riscv.Allocator.Valid.{IsLayout}
use oskernel_riscv.Elements.{Ends, put_between}
use oskernel_riscv.Elements.Links.{
  Cells, Leads, Leads-split, Leads-append, Leads-same, head-Leads, last_addr, head_addr, is_at,
  is_at-append, Apart-add, Each, Each-but, Each-append, Each-split, Each-zip, Apart-split, IsElem,
  words_differ,
}
use oskernel_riscv.Elements.Owned.{Own, has_block, elem-IsData, KeepsBut, new_elem-New}
use oskernel_riscv.Elements.Turned.{
  Holds, Others, elems, turned, turn_heap-mem, elem_real, turned-Leads, turned-other, turned-Valid,
}

-- A new element behind `xs` and before `ys`.
pub record Spliced (l : Layout) (p : ℕ) (h : Heap) (ts : Blocks) (xs ys : Cells)
    (r : Option (Ends × Heap)) : Type 0 where
  pub elem : ℕ
  pub ends : Ends
  pub after : Heap
  pub free_blocks : Blocks
  pub taken_blocks : Blocks
  pub ran : r ≡ some (ends, after)
  pub holds : Holds l after free_blocks taken_blocks ends (xs ++ (elem, p) ∷ ys)
  pub others : Others l h ts (xs ++ ys) after taken_blocks (xs ++ (elem, p) ∷ ys)

-- An element of a fresh block is none of the list.
not_among :
    (l : Layout) (ts : Blocks) (e : ℕ) (cs : Cells)
    → Each (Own l ts) cs
    → has_block (e - 16) ts ≡ false
    → is_at e cs ≡ false
not_among l ts e [] own out = refl
not_among l ts e ((d, x) ∷ cs) (mine, own) out =
    let rest = not_among l ts e cs own out in
    let ne : d ≢ e = λ k. ground (arith, ap (λ (y : ℕ). has_block (y - 16) ts) k, mine.1, out) in
    ground (arith, ne, rest)

pub last_addr-append :
    (d : ℕ) (xs : Cells) (e x : ℕ) (ys : Cells) → last_addr d (xs ++ (e, x) ∷ ys) ≡ last_addr e ys
last_addr-append d [] e x ys = refl
last_addr-append d ((c, y) ∷ xs) e x ys = last_addr-append c xs e x ys

-- The new `tail`.
tail_is :
    (l : Layout) (t : ℕ) (xs : Cells) (e x : ℕ) (ys : Cells)
    → Each (IsElem l) ys
    → t ≡ last_addr 0 (xs ++ ys)
    → (if head_addr ys == 0 then e else t) ≡ last_addr 0 (xs ++ (e, x) ∷ ys)
tail_is l t xs e x [] el last = sym (last_addr-append 0 xs e x [])
tail_is l t xs e x ((d, y) ∷ ys) el last =
    rw (elem_real l d el.0)
      (last ∙ (last_addr-append 0 xs d y ys ∙ sym (last_addr-append 0 xs e x ((d, y) ∷ ys))))

-- Words of other elements stay when a new element is made.
new-others :
    (l : Layout) (e : ℕ) (m m' : Memory)
    → IsElem l e
    → KeepsBut l e m m'
    → (d : ℕ) → d ≢ e
    → IsElem l d
    → (m' d ≡ m d) × (m' (d + 8) ≡ m (d + 8))
new-others l e m m' mine keep d ne el =
    let (n₁, n₂, n₃) = words_differ l d e el mine ne in
    let (i₁, i₂) = elem-IsData l d el in (keep d i₁ ne n₁, keep (d + 8) i₂ n₃ n₂)

pub put_between-Spliced :
    (l : Layout) (p : ℕ) (q : Ends) (h : Heap) (fs ts : Blocks) (xs ys : Cells)
    → IsLayout l
    → Holds l h fs ts q (xs ++ ys)
    → ((fs ≡ []) × (put_between l p (last_addr 0 xs) (head_addr ys) q h ≡ none))
      ⊎ Spliced l p h ts xs ys (put_between l p (last_addr 0 xs) (head_addr ys) q h)
unfolding put_between
put_between-Spliced l p q h fs ts xs ys is holds =
    elim (new_elem-New l p (head_addr ys) h fs ts is holds.valid) [
      | inl (full, e) ↦ inl (full, rw e refl)
      | inr new ↦
          let e : ℕ = new.elem in
          let m₁ : Memory = new.after.mem in
          let m₂ : Memory = turned (last_addr 0 xs) e m₁ in
          let (el_xs, el_ys) = Each-split (IsElem l) xs ys (elems l ts (xs ++ ys) holds.own) in
          let out = not_among l ts e (xs ++ ys) holds.own new.fresh in
          let out_both : (is_at e xs || is_at e ys) ≡ false = sym (is_at-append e xs ys) ∙ out in
          let same =
            Each-but (IsElem l) (λ d. (m₁ d ≡ h.mem d) × (m₁ (d + 8) ≡ h.mem (d + 8))) e (xs ++ ys)
              out (new-others l e h.mem m₁ new.is_elem new.keeps)
              (elems l ts (xs ++ ys) holds.own) in
          let (k, to_k, from_k) =
            Leads-split m₁ q.head xs ys 0
              (Leads-same h.mem m₁ q.head (xs ++ ys) 0 same holds.links) in
          let far = Apart-add xs e p ys out holds.apart in
          let (far_xs, far_ys, cross) = Apart-split xs ys holds.apart in
          let (datum_kept, next_kept) =
            turned-other l m₁ xs e e el_xs new.is_elem (ground (arith, out_both)) in
          let same_ys =
            Each-zip (IsElem l) (λ d. is_at d xs ≡ false)
              (λ d. (m₂ d ≡ m₁ d) × (m₂ (d + 8) ≡ m₁ (d + 8))) ys
              (λ d el o. turned-other l m₁ xs e d el_xs el o) el_ys cross in
          let behind : Leads m₂ k ys 0 = Leads-same m₁ m₂ k ys 0 same_ys from_k in
          let leads_on : k ≡ m₂ (e + 8) =
            head-Leads m₁ k ys from_k ∙ (sym new.holds_next ∙ sym next_kept) in
          let from_e : Leads m₂ e ((e, p) ∷ ys) 0 = (
            refl,
            (λ z. ground (arith, elem_real l e new.is_elem)),
            datum_kept ∙ new.holds_datum,
            subst (λ i. Leads m₂ i ys 0) leads_on behind,
          ) in
          let (own_xs, own_ys) = Each-split (Own l ((e - 16, 1) ∷ ts)) xs ys (
            Each-but (Own l ts) (Own l ((e - 16, 1) ∷ ts)) e (xs ++ ys) out
              (λ d ne o. (o.0, ground (arith, o.1))) holds.own) in
          inr (record {
            elem = e;
            ends = record {
              head = if last_addr 0 xs == 0 then e else q.head;
              tail = if head_addr ys == 0 then e else q.tail;
            };
            after = record new.after { mem = m₂ };
            free_blocks = new.free_blocks;
            taken_blocks = (e - 16, 1) ∷ ts;
            ran = rw (new.ran, turn_heap-mem (last_addr 0 xs) e new.after) refl;
            holds = record {
              valid =
                  turned-Valid l new.after new.free_blocks ((e - 16, 1) ∷ ts) xs e el_xs new.valid;
              links =
                  Leads-append m₂ _ xs e ((e, p) ∷ ys) 0
                    (turned-Leads l m₁ q.head xs k e el_xs far_xs to_k) from_e;
              last = tail_is l q.tail xs e p ys el_ys holds.last;
              own =
                  Each-append (Own l ((e - 16, 1) ∷ ts)) xs ((e, p) ∷ ys) own_xs
                    ((new.is_elem, ground arith), own_ys);
              apart = far;
            };
            others = λ o (el, has) away.
                let ne : o ≢ e =
                  λ i. ground (arith, ap (λ (y : ℕ). has_block (y - 16) ts) i, has, new.fresh) in
                let (a₁, a₂) = new-others l e h.mem m₁ new.is_elem new.keeps o ne el in
                let (b₁, b₂) =
                  turned-other l m₁ xs e o el_xs el (ground (arith, is_at-append o xs ys, away)) in
                (
                  b₁ ∙ a₁,
                  b₂ ∙ a₂,
                  ground (arith, has),
                  ground (arith, is_at-append o xs ((e, p) ∷ ys), is_at-append o xs ys, away, ne),
                );
          })
    ]
