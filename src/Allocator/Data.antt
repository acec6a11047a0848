-- ===== src/Allocator/Data.antt =====
-- What the allocator writes: the first two words of some blocks. What stands behind the headers of taken blocks
-- stays, and so does every word that is not one of the first two of a unit of the heap.
use oskernel_riscv.Base.{
  ℕ, ◌+◌, ◌-◌, ◌*◌, ◌%◌, ◌^◌, ◌≤◌, ◌<◌, ◌≡◌, refl, ◌≢◌, ◌⊎◌, inl, inr, [], ◌∷◌, arith, ◌==◌, ◌&&◌,
  leb, ltb, if◌then◌else◌, Bool-cases, if_both,
}
use oskernel_riscv.Allocator.{
  block_size, Memory, store, Layout, Heap, end_of, relink, unlink_whole, split_leftover, claim,
  carve, join_prev, join_next,
}
use oskernel_riscv.Allocator.Chain.{Blocks, last_or}
use oskernel_riscv.Allocator.Cover.{All, Positive, cover}
use oskernel_riscv.Allocator.Valid.{Placed}

-- The words where `P` holds are as they were.
abbrev pub KeepsAt : (ℕ → Type 0) → Memory → Memory → Type 0
KeepsAt P m m' = (x : ℕ) → P x → m' x ≡ m x

-- An address of the heap that is in no header of a block that begins at a multiple of the block size.
abbrev pub IsData : Layout → ℕ → Type 0
IsData l x = (l.heap_start ≤ x) × (16 ≤ (x - l.heap_start) % block_size)

abbrev pub Keeps : Layout → Memory → Memory → Type 0
Keeps l m m' = KeepsAt (IsData l) m m'

-- How many of the blocks hold the byte at `x` behind their header.
abbrev pub payload : ℕ → Blocks → ℕ
payload x [] = 0
payload x ((a, s) ∷ bs) =
    (if leb (a + 16) x && ltb x (a + s * block_size) then 1 else 0) + payload x bs

-- The words behind the headers of the blocks are as they were.
abbrev pub Spares : Blocks → Memory → Memory → Type 0
Spares bs m m' = KeepsAt (λ x. 1 ≤ payload x bs) m m'

-- How many of the blocks have the byte at `x` in their first two words.
abbrev pub heads : ℕ → Blocks → ℕ
heads x [] = 0
heads x ((a, s) ∷ bs) = (if leb a x && ltb x (a + 16) then 1 else 0) + heads x bs

pub payload-heads : (x : ℕ) (bs : Blocks) → Positive bs → payload x bs + heads x bs ≡ cover x bs
payload-heads x [] p = refl
payload-heads x ((a, s) ∷ bs) p = ground (arith, p.0, payload-heads x bs p.1)

-- The two words at `a` are not among those where `P` holds.
abbrev pub Free : (ℕ → Type 0) → ℕ → Type 0
Free P a = (x : ℕ) → P x → (x ≢ a) × (x ≢ a + 8)

abbrev pub Frees : (ℕ → Type 0) → Blocks → Type 0
Frees P = All (λ b. Free P b.0)

pub Placed-Frees : (l : Layout) (bs : Blocks) → Placed l bs → Frees (IsData l) bs
Placed-Frees l [] p = tt
Placed-Frees l ((a, s) ∷ bs) p =
    ((λ x d. (omega (arith, p.0, d), omega (arith, p.0, d))), Placed-Frees l bs p.1)

pub heads-Frees : (P : ℕ → Type 0) (bs : Blocks) → ((x : ℕ) → P x → heads x bs ≡ 0) → Frees P bs
heads-Frees P [] none_in = tt
heads-Frees P ((a, s) ∷ bs) none_in = (
  λ x d. (ground (arith, none_in x d), ground (arith, none_in x d)),
  heads-Frees P bs (λ x d. omega (arith, none_in x d)),
)

pub end_of-Free :
    (l : Layout) (n a s : ℕ)
    → Placed l ((a, s) ∷ [])
    → n ≤ s
    → l.heap_end < 2 ^ 64
    → Free (IsData l) (end_of a n)
unfolding end_of
end_of-Free l n a s p le top x d = (omega (arith, p.0, d), omega (arith, p.0, d))

module _ (P : ℕ → Type 0) where
  pub store-Keeps :
      (m k : Memory) (a y v : ℕ)
      → Free P a
      → (y ≡ a) ⊎ (y ≡ a + 8)
      → KeepsAt P m k
      → KeepsAt P m (store k y v)
  unfolding store
  store-Keeps m k a y v ha at keep x hx = ground (arith, keep x hx, ha x hx)

  pub last-Free : (a s : ℕ) (bs : Blocks) → Frees P ((a, s) ∷ bs) → Free P (last_or a bs)
  last-Free a s [] p = p.0
  last-Free a s ((b, t) ∷ bs) p = last-Free b t bs p.1

  pub relink-Keeps :
      (m k : Memory) (x hd : ℕ) (pre : Blocks)
      → Frees P pre
      → KeepsAt P m k
      → KeepsAt P m (relink (last_or 0 pre) x (k, hd)).0
  unfolding relink
  relink-Keeps m k x hd [] p keep = keep
  relink-Keeps m k x hd ((a, s) ∷ bs) p keep = elim (Bool-cases (last_or a bs == 0)) [
    | inl e ↦ rw (e, relink) keep
    | inr e ↦
        rw (e, relink)
          (store-Keeps m k (last_or a bs) (last_or a bs) x (last-Free a s bs p) (inl refl) keep)
  ]

  pub claim-Keeps :
      (m k : Memory) (n a t : ℕ) → Free P a → KeepsAt P m k → KeepsAt P m (claim n a k t)
  unfolding claim
  claim-Keeps m k n a t ha keep =
      store-Keeps m _ a a t ha (inl refl)
        (store-Keeps m _ a a 0 ha (inl refl) (store-Keeps m k a (a + 8) n ha (inr refl) keep))

  pub carve-Keeps :
      (h : Heap) (n a : ℕ) (pre : Blocks)
      → Frees P pre
      → Free P a
      → (n ≢ h.mem (a + 8) → Free P (end_of a n))
      → KeepsAt P h.mem (carve n (last_or 0 pre) a h).mem
  unfolding carve unlink_whole split_leftover
  carve-Keeps h n a pre pp ha left = elim (Bool-cases (n == h.mem (a + 8))) [
    | inl e ↦
        rw (e, carve)
          (claim-Keeps h.mem _ n a h.head_taken ha
            (relink-Keeps h.mem h.mem (h.mem a) h.head_free pre pp (λ x _. refl)))
    | inr e ↦
        let hl = left (ground (arith, e)) in
        rw (e, carve)
          (claim-Keeps h.mem _ n a h.head_taken ha (
            relink-Keeps h.mem _ (end_of a n) h.head_free pre pp (
              store-Keeps h.mem _ (end_of a n) (end_of a n + 8) _ hl (inr refl)
                (store-Keeps h.mem h.mem (end_of a n) (end_of a n) _ hl (inl refl) (λ x _. refl)))))
  ]

  pub join_prev-Keeps :
      (m k : Memory) (a hd : ℕ) (pre : Blocks)
      → Frees P pre
      → Free P a
      → KeepsAt P m k
      → KeepsAt P m (join_prev (last_or 0 pre) a (k, hd)).1
        × Free P (join_prev (last_or 0 pre) a (k, hd)).0
  unfolding join_prev
  join_prev-Keeps m k a hd [] p ha keep = (keep, ha)
  join_prev-Keeps m k a hd ((b, t) ∷ bs) p ha keep =
      let c = last_or b bs in
      let hc = last-Free b t bs p in
      if_both Both (c == 0) (keep, ha)
        (if_both Both (end_of c (k (c + 8)) == a)
          (store-Keeps m k c (c + 8) _ hc (inr refl) keep, hc)
          (store-Keeps m _ c c a hc (inl refl) (store-Keeps m k a a (k c) ha (inl refl) keep), ha))
    where
      Both : ℕ × Memory × ℕ → Type 0
      Both r = KeepsAt P m r.1 × Free P r.0

  pub join_next-Keeps :
      (m k : Memory) (c next : ℕ) → Free P c → KeepsAt P m k → KeepsAt P m (join_next c next k)
  unfolding join_next
  join_next-Keeps m k c next hc keep = if_both (KeepsAt P m) (next == 0) keep (
      if_both (KeepsAt P m) (end_of c (k (c + 8)) == next)
        (store-Keeps m _ c c _ hc (inl refl) (store-Keeps m k c (c + 8) _ hc (inr refl) keep))
        (store-Keeps m k c c next hc (inl refl) keep))
