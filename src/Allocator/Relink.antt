-- ===== src/Allocator/Relink.antt =====
-- `relink` makes the list's part before a block lead to another block, and spares other lists.
use oskernel_riscv.Base.{
  sym, subst, ◌≢◌, inr, Bool-cases, ◌==◌, ℕ, ◌+◌, ◌≤◌, ◌≡◌, refl, ◌⊎◌, inl, [], ◌∷◌, arith,
}
use oskernel_riscv.Allocator.{Memory, store, relink}
use oskernel_riscv.Allocator.Cover.{Clear-last, Positive, cover}
use oskernel_riscv.Allocator.Chain.{Blocks, Seg, Clear, Spread, last_or, Seg-store}

last-apart :
    (a b t : ℕ) (bs : Blocks)
    → Clear a ((b, t) ∷ bs)
    → (a + 16 ≤ last_or b bs) ⊎ (last_or b bs + 16 ≤ a)
last-apart a b t [] c = c.0
last-apart a b t ((d, u) ∷ bs) c = last-apart a d u bs c.1

store-last :
    (m : Memory) (a s p q x : ℕ) (bs : Blocks)
    → Seg m p ((a, s) ∷ bs) q
    → Spread ((a, s) ∷ bs)
    → Seg (store m (last_or a bs) x) p ((a, s) ∷ bs) x
unfolding store
store-last m a s p q x [] g sp = ground arith
store-last m a s p q x ((b, t) ∷ bs) g sp =
    let rest = store-last m b t (m a) q x bs g.3 sp.1 in
    let far = last-apart a b t bs sp.0 in ground arith

last-ne_zero : (m : Memory) (a s p q : ℕ) (bs : Blocks) → Seg m p ((a, s) ∷ bs) q → last_or a bs ≢ 0
last-ne_zero m a s p q [] g = g.1
last-ne_zero m a s p q ((b, t) ∷ bs) g = last-ne_zero m b t (m a) q bs g.3

relink_block :
    (m : Memory) (head x prev : ℕ) → prev ≢ 0 → relink prev x (m, head) ≡ (store m prev x, head)
unfolding relink
relink_block m head x prev h = ground arith

pub relink-Seg :
    (m : Memory) (head q x : ℕ) (pre : Blocks)
    → Seg m head pre q
    → Spread pre
    → Seg (relink (last_or 0 pre) x (m, head)).0 (relink (last_or 0 pre) x (m, head)).1 pre x
unfolding relink
relink-Seg m head q x [] g sp = refl
relink-Seg m head q x ((a, s) ∷ bs) g sp =
    subst (λ (r : Memory × ℕ). Seg r.0 r.1 ((a, s) ∷ bs) x)
      (sym (relink_block m head x (last_or a bs) (last-ne_zero m a s head q bs g)))
      (store-last m a s head q x bs g sp)

-- Blocks that share no byte with the list are spared.
pub relink-other :
    (m : Memory) (head x p r : ℕ) (pre bs : Blocks)
    → Positive pre
    → Positive bs
    → ((y : ℕ) → cover y pre + cover y bs ≤ 1)
    → Seg m p bs r
    → Seg (relink (last_or 0 pre) x (m, head)).0 p bs r
unfolding relink
relink-other m head x p r [] bs pp pb o g = g
relink-other m head x p r ((a, s) ∷ pre) bs pp pb o g = elim (Bool-cases (last_or a pre == 0)) [
  | inl null ↦ rw (null, relink) g
  | inr some_block ↦
      rw (some_block, relink)
        (Seg-store m (last_or a pre) x (last_or a pre) p bs r (Clear-last a s pre bs pp pb o)
          (inl refl) g)
]
