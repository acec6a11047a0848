-- ===== src/Elements/Unlink.antt =====
-- An element is taken off a list and its block given back.
use oskernel_riscv.Base.{
  append-nil, ℕ, ◌+◌, ◌-◌, ◌≡◌, ◌≢◌, refl, sym, ap, ◌∙◌, Bool, true, false, Option, some, [], ◌∷◌,
  ◌++◌, arith, ◌==◌, if◌then◌else◌,
}
use oskernel_riscv.Allocator.{Memory, Layout, Heap}
use oskernel_riscv.Allocator.Chain.{Blocks}
use oskernel_riscv.Allocator.Valid.{IsLayout}
use oskernel_riscv.Allocator.Data.{Keeps}
use oskernel_riscv.Elements.{Ends, take_off}
use oskernel_riscv.Elements.Links.{
  Cells, Leads, Leads-split, Leads-append, Leads-same, last_addr, is_at, is_at-append, Apart-drop,
  Each-but, Each-append, Each-split, Each-zip, Apart-split, IsElem, Each-last, Each-other,
}
use oskernel_riscv.Elements.Owned.{Own, elem-IsData, kmfree-Gone}
use oskernel_riscv.Elements.Turned.{
  Holds, Others, elems, turned, turn_heap-mem, turned-Leads, turned-other, turned-Valid,
}
use oskernel_riscv.Elements.Splice.{last_addr-append}

-- The element behind `xs` and before `ys` is gone.
pub record Unlinked (l : Layout) (e x : ℕ) (h : Heap) (ts : Blocks) (xs ys : Cells)
    (r : Option (Bool × Ends × Heap)) : Type 0 where
  pub ends : Ends
  pub after : Heap
  pub free_blocks : Blocks
  pub taken_blocks : Blocks
  pub ran : r ≡ some (true, ends, after)
  pub holds : Holds l after free_blocks taken_blocks ends (xs ++ ys)
  pub others : Others l h ts (xs ++ (e, x) ∷ ys) after taken_blocks (xs ++ ys)

-- The new `tail`.
tail_is :
    (t : ℕ) (xs : Cells) (e x : ℕ) (ys : Cells)
    → is_at e (xs ++ ys) ≡ false
    → t ≡ last_addr 0 (xs ++ (e, x) ∷ ys)
    → (if e == t then last_addr 0 xs else t) ≡ last_addr 0 (xs ++ ys)
tail_is t xs e x [] out last =
    let same : e ≡ t = sym (last ∙ last_addr-append 0 xs e x []) in
    ground (arith, same, ap (last_addr 0) (append-nil xs))
tail_is t xs e x ((d, y) ∷ ys) out last =
    let at : t ≡ last_addr d ys = last ∙ last_addr-append 0 xs e x ((d, y) ∷ ys) in
    let out_ys : is_at e ((d, y) ∷ ys) ≡ false =
      ground (arith, is_at-append e xs ((d, y) ∷ ys), out) in
    let ne : last_addr d ys ≢ e =
      Each-last (λ k. k ≢ e) d y ys (Each-other e ((d, y) ∷ ys) out_ys) in
    ground (arith, at, ne, last_addr-append 0 xs d y ys)

-- Blocks and words of elements that are not given back.
kept :
    (l : Layout) (e : ℕ) (m m' : Memory)
    → Keeps l m m'
    → (d : ℕ) → IsElem l d
    → (m' d ≡ m d) × (m' (d + 8) ≡ m (d + 8))
kept l e m m' keep d el = let (i₁, i₂) = elem-IsData l d el in (keep d i₁, keep (d + 8) i₂)

pub take_off-Unlinked :
    (l : Layout) (e x : ℕ) (q : Ends) (h : Heap) (fs ts : Blocks) (xs ys : Cells)
    → IsLayout l
    → Holds l h fs ts q (xs ++ (e, x) ∷ ys)
    → Unlinked l e x h ts xs ys (take_off (last_addr 0 xs) e q h)
unfolding take_off
take_off-Unlinked l e x q h fs ts xs ys is holds =
    let el = elems l ts (xs ++ (e, x) ∷ ys) holds.own in
    let (el_xs, (el_e, el_ys)) = Each-split (IsElem l) xs ((e, x) ∷ ys) el in
    let (own_xs, (own_e, own_ys)) = Each-split (Own l ts) xs ((e, x) ∷ ys) holds.own in
    let (far_xs, (out_ys, far_ys), (out_e, cross)) = Apart-split xs ((e, x) ∷ ys) holds.apart in
    let (out, far) = Apart-drop xs e x ys holds.apart in
    let (k, to_e, (at, real, is_datum, from_e)) =
      Leads-split h.mem q.head xs ((e, x) ∷ ys) 0 holds.links in
    let next : ℕ = h.mem (e + 8) in
    let m₁ : Memory = turned (last_addr 0 xs) next h.mem in
    let h₁ : Heap = record h { mem = m₁ } in
    let gone =
      kmfree-Gone l e h₁ fs ts is (turned-Valid l h fs ts xs next el_xs holds.valid) own_e in
    let m₂ : Memory = gone.after.mem in
    let both : (d : ℕ)
        → is_at d xs ≡ false
        → IsElem l d
        → (m₂ d ≡ h.mem d) × (m₂ (d + 8) ≡ h.mem (d + 8)) =
      λ d o i.
        let (a₁, a₂) = turned-other l h.mem xs next d el_xs i o in
        let (b₁, b₂) = kept l e m₁ m₂ gone.keeps d i in (b₁ ∙ a₁, b₂ ∙ a₂) in
    let same_ys =
      Each-zip (λ d. is_at d xs ≡ false) (IsElem l)
        (λ d. (m₂ d ≡ h.mem d) × (m₂ (d + 8) ≡ h.mem (d + 8))) ys both cross el_ys in
    let behind : Leads m₂ next ys 0 = Leads-same h.mem m₂ next ys 0 same_ys from_e in
    let first = turned-Leads l h.mem q.head xs k next el_xs far_xs to_e in
    let same_xs =
      Each-zip (IsElem l) (IsElem l) (λ d. (m₂ d ≡ m₁ d) × (m₂ (d + 8) ≡ m₁ (d + 8))) xs
        (λ d i j. kept l e m₁ m₂ gone.keeps d i) el_xs el_xs in
    record {
      ends = record {
        head = if last_addr 0 xs == 0 then next else q.head;
        tail = if e == q.tail then last_addr 0 xs else q.tail;
      };
      after = gone.after;
      free_blocks = gone.free_blocks;
      taken_blocks = gone.taken_blocks;
      ran = rw (turn_heap-mem (last_addr 0 xs) next h, gone.ran) refl;
      holds = record {
        valid = gone.valid;
        links = Leads-append m₂ _ xs next ys 0 (Leads-same m₁ m₂ _ xs next same_xs first) behind;
        last = tail_is q.tail xs e x ys out holds.last;
        own =
            Each-but (Own l ts) (Own l gone.taken_blocks) e (xs ++ ys) out
              (λ d ne o. (o.0, gone.others (d - 16) (λ s. ne (omega (arith, o.0, el_e))) o.1))
              (Each-append (Own l ts) xs ys own_xs own_ys);
        apart = far;
      };
      others = λ d (i, has) away.
          let ne : d ≢ e = ground (arith, is_at-append d xs ((e, x) ∷ ys), away) in
          let (b₁, b₂) = both d (ground (arith, is_at-append d xs ((e, x) ∷ ys), away)) i in
          (
            b₁,
            b₂,
            gone.others (d - 16) (λ s. ne (omega (arith, i, el_e))) has,
            ground (arith, is_at-append d xs ys, is_at-append d xs ((e, x) ∷ ys), away),
          );
    }
