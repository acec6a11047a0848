-- ===== src/Allocator/Cover.antt =====
-- Which bytes the blocks cover. Blocks that cover no byte twice keep their headers apart, and a list
-- in address order with gaps is determined by what it covers.
use oskernel_riscv.Base.{
  ℕ, ◌+◌, ◌*◌, ◌≤◌, ◌<◌, ◌≡◌, refl, [], ◌∷◌, ◌++◌, arith, ◌&&◌, leb, ltb, if◌then◌else◌, length,
}
use oskernel_riscv.Allocator.{block_size}
use oskernel_riscv.Allocator.Chain.{Blocks, Clear, Spread, last_or}

-- 1 if the block at `a` of `s` blocks' length holds the byte at `x`.
abbrev pub covers : ℕ → ℕ → ℕ → ℕ
covers a s x = if leb a x && ltb x (a + s * block_size) then 1 else 0

-- How many of the blocks hold the byte at `x`.
abbrev pub cover : ℕ → Blocks → ℕ
cover x [] = 0
cover x ((a, s) ∷ bs) = covers a s x + cover x bs

-- The blocks' sizes together.
abbrev pub total : Blocks → ℕ
total [] = 0
total ((_, s) ∷ bs) = s + total bs

abbrev pub Once : Blocks → Type 0
Once bs = (x : ℕ) → cover x bs ≤ 1

abbrev pub All : (ℕ × ℕ → Type 0) → Blocks → Type 0
All P [] = Unit {0}
All P (x ∷ xs) = P x × All P xs

abbrev pub Positive : Blocks → Type 0
Positive = All (λ b. 0 < b.1)

-- In address order, each block strictly behind the end of the one before.
abbrev pub Gapped : ℕ → Blocks → Type 0
Gapped lo [] = Unit {0}
Gapped lo ((a, s) ∷ bs) = (lo < a) × Gapped (a + s * block_size) bs

pub cover-append : (x : ℕ) (bs cs : Blocks) → cover x (bs ++ cs) ≡ cover x bs + cover x cs
cover-append x [] cs = omega arith
cover-append x ((a, s) ∷ bs) cs = omega (arith, cover-append x bs cs)

pub total-append : (bs cs : Blocks) → total (bs ++ cs) ≡ total bs + total cs
total-append [] cs = omega arith
total-append ((a, s) ∷ bs) cs = omega (arith, total-append bs cs)

pub length-le-total : (bs : Blocks) → Positive bs → length bs ≤ total bs
length-le-total [] p = omega arith
length-le-total ((a, s) ∷ bs) p = omega (arith, length-le-total bs p.1)

pub All-append : (P : ℕ × ℕ → Type 0) (bs cs : Blocks) → All P (bs ++ cs) → All P bs × All P cs
All-append P [] cs p = (tt, p)
All-append P (b ∷ bs) cs p = let r = All-append P bs cs p.1 in ((p.0, r.0), r.1)

pub append-All : (P : ℕ × ℕ → Type 0) (bs cs : Blocks) → All P bs → All P cs → All P (bs ++ cs)
append-All P [] cs p q = q
append-All P (b ∷ bs) cs p q = (p.0, append-All P bs cs p.1 q)

pub Clear-Once : (a s : ℕ) (bs : Blocks) → 0 < s → Positive bs → Once ((a, s) ∷ bs) → Clear a bs
Clear-Once a s [] h p o = tt
Clear-Once a s ((b, t) ∷ bs) h p o =
    (ground (arith, o a, o b), Clear-Once a s bs h p.1 (λ x. ground (arith, o x)))

pub Spread-Once : (bs : Blocks) → Positive bs → Once bs → Spread bs
Spread-Once [] p o = tt
Spread-Once ((a, s) ∷ bs) p o =
    (Clear-Once a s bs p.0 p.1 o, Spread-Once bs p.1 (λ x. ground (arith, o x)))

-- The last of some blocks is clear of others that share no byte with them.
pub Clear-last :
    (a s : ℕ) (bs cs : Blocks)
    → Positive ((a, s) ∷ bs)
    → Positive cs
    → ((x : ℕ) → cover x ((a, s) ∷ bs) + cover x cs ≤ 1)
    → Clear (last_or a bs) cs
Clear-last a s [] cs p q o = Clear-Once a s cs p.0 q (λ x. omega (arith, o x))
Clear-last a s ((b, t) ∷ bs) cs p q o = Clear-last b t bs cs p.1 q (λ x. omega (arith, o x))

cover_below : (x lo : ℕ) (bs : Blocks) → Gapped lo bs → x ≤ lo → cover x bs ≡ 0
cover_below x lo [] g h = refl
cover_below x lo ((a, s) ∷ bs) g h = ground (arith, cover_below x (a + s * block_size) bs g.1)

-- The representation of a set of free bytes is unique.
pub Gapped-unique :
    (lo : ℕ) (bs cs : Blocks)
    → Gapped lo bs
    → Gapped lo cs
    → Positive bs
    → Positive cs
    → ((x : ℕ) → cover x bs ≡ cover x cs)
    → bs ≡ cs
Gapped-unique lo [] [] g h p q e = refl
Gapped-unique lo [] ((b, t) ∷ cs) g h p q e = absurd (ground (arith, e b))
Gapped-unique lo ((a, s) ∷ bs) [] g h p q e = absurd (ground (arith, e a))
Gapped-unique lo ((a, s) ∷ bs) ((b, t) ∷ cs) g h p q e =
    let at : a ≡ b = ground (
      arith,
      e a,
      e b,
      cover_below a (b + t * block_size) cs h.1,
      cover_below b (a + s * block_size) bs g.1,
    ) in
    let size : s ≡ t = ground (
      arith,
      e (a + s * block_size),
      e (b + t * block_size),
      cover_below (a + s * block_size) (b + t * block_size) cs h.1,
      cover_below (a + s * block_size) (a + s * block_size) bs g.1,
      cover_below (b + t * block_size) (b + t * block_size) cs h.1,
      cover_below (b + t * block_size) (a + s * block_size) bs g.1,
    ) in
    let h' : Gapped (a + s * block_size) cs = rw (at, size) h.1 in
    let rest = Gapped-unique (a + s * block_size) bs cs g.1 h' p.1 q.1 (λ x. ground (arith, e x)) in
    rw (at, size, rest)
