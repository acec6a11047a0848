-- ===== src/Elements/Beside.antt =====
-- Two lists on one heap.
use oskernel_riscv.Base.{ℕ, ◌+◌, ◌≡◌, ap, ◌∙◌, ◌⊎◌, inl, inr, false, true, none, some, List}
use oskernel_riscv.Allocator.{Layout, Heap}
use oskernel_riscv.Allocator.Chain.{Blocks}
use oskernel_riscv.Allocator.Valid.{IsLayout, Valid}
use oskernel_riscv.Elements.{Ends}
use oskernel_riscv.Elements.Links.{Cells, Leads-same, Each, Each-zip, Each-map, is_at, data_of}
use oskernel_riscv.Elements.Owned.{Own}
use oskernel_riscv.Elements.Turned.{Holds, Others}
use oskernel_riscv.Elements.Operations.{Op, exec, model, is_adding}
use oskernel_riscv.Elements.Refine.{exec-model}

-- The elements of the two lists are different.
abbrev pub Parted : Cells → Cells → Type 0
Parted cs ds = Each (λ e. is_at e cs ≡ false) ds

-- Both lists stand in the taken blocks of one heap.
pub record Beside (l : Layout) (h : Heap) (q : Ends) (xs : List ℕ) (r : Ends) (ys : List ℕ)
    : Type 0 where
  pub free_blocks : Blocks
  pub taken_blocks : Blocks
  pub mine : Cells
  pub other : Cells
  pub holds_mine : Holds l h free_blocks taken_blocks q mine
  pub holds_other : Holds l h free_blocks taken_blocks r other
  pub shows_mine : data_of mine ≡ xs
  pub shows_other : data_of other ≡ ys
  pub parted : Parted mine other

-- A list whose elements a change of the other one leaves alone.
abbrev Stays : Layout → Heap → Heap → Blocks → Cells → ℕ → Type 0
Stays l h h' ts' cs' e =
    (h'.mem e ≡ h.mem e) × (h'.mem (e + 8) ≡ h.mem (e + 8)) × Own l ts' e × (is_at e cs' ≡ false)

stays :
    (l : Layout) (h h' : Heap) (ts ts' : Blocks) (cs cs' ds : Cells)
    → Others l h ts cs h' ts' cs'
    → Parted cs ds
    → Each (Own l ts) ds
    → Each (Stays l h h' ts' cs') ds
stays l h h' ts ts' cs cs' ds others parted own =
    Each-zip (Own l ts) (λ e. is_at e cs ≡ false) (Stays l h h' ts' cs') ds
      (λ e mine out. let (a, b, has, away) = others e mine out in (a, b, (mine.0, has), away)) own
      parted

Holds-kept :
    (l : Layout) (h h' : Heap) (fs ts fs' ts' : Blocks) (cs' : Cells) (r : Ends) (ds : Cells)
    → Valid l h' fs' ts'
    → Each (Stays l h h' ts' cs') ds
    → Holds l h fs ts r ds
    → Holds l h' fs' ts' r ds × Parted cs' ds
Holds-kept l h h' fs ts fs' ts' cs' r ds v same is = (
  record {
    valid = v;
    links =
        Leads-same h.mem h'.mem r.head ds 0
          (Each-map (Stays l h h' ts' cs') _ ds (λ e s. (s.0, s.1)) same) is.links;
    last = is.last;
    own = Each-map (Stays l h h' ts' cs') _ ds (λ e s. s.2) same;
    apart = is.apart;
  },
  Each-map (Stays l h h' ts' cs') _ ds (λ e s. s.3) same,
)

-- An operation on a list that stands beside another one on the heap: either it adds a pointer and fails, or it
-- ends as on the list of pointers, and afterwards both lists stand there, the first with the pointers that the
-- operation leaves and the other with the same pointers as before.
pub exec-Beside :
    (l : Layout) (h : Heap) (q r : Ends) (xs ys : List ℕ) (o : Op)
    → IsLayout l
    → Beside l h q xs r ys
    → ((is_adding o ≡ true) × (exec l o q h ≡ none))
      ⊎ ((k : Ends) × (g : Heap) × (exec l o q h ≡ some ((model o xs).0, k, g))
          × Beside l g k (model o xs).1 r ys)
exec-Beside l h q r xs ys o is both =
    elim (exec-model l h both.free_blocks both.taken_blocks q both.mine o is both.holds_mine) [
      | inl (adds, full, e) ↦ inl (adds, e)
      | inr s ↦
          let (other, parted) =
            Holds-kept l h s.after both.free_blocks both.taken_blocks s.free_blocks s.taken_blocks
              s.cells r both.other s.holds.valid
              (stays l h s.after both.taken_blocks s.taken_blocks both.mine s.cells both.other
                s.others both.parted both.holds_other.own)
              both.holds_other in
          inr (
            s.ends,
            s.after,
            s.ran ∙ ap (λ (c : List ℕ). some ((model o c).0, s.ends, s.after)) both.shows_mine,
            record {
              free_blocks = s.free_blocks;
              taken_blocks = s.taken_blocks;
              mine = s.cells;
              other = both.other;
              holds_mine = s.holds;
              holds_other = other;
              shows_mine = s.agrees ∙ ap (λ (c : List ℕ). (model o c).1) both.shows_mine;
              shows_other = both.shows_other;
              parted = parted;
            },
          )
    ]
