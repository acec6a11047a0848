-- ===== src/Elements/Links.antt =====
-- The elements that the pointers lead through, and the loops over them.
use oskernel_riscv.Base.{
  ℕ, zero, suc, ◌+◌, ◌-◌, ◌%◌, ◌≤◌, ◌<◌, ◌≡◌, ◌≢◌, refl, sym, ap, ◌∙◌, subst, Bool, false, not,
  ◌||◌, some, List, [], ◌∷◌, ◌++◌, arith, ◌==◌, if◌then◌else◌, Bool-cases, inl, inr, length,
}
use oskernel_riscv.Allocator.{Memory, Layout, store}
use oskernel_riscv.Elements.{next_of, datum, before_tail, find_spec, find_sorted}

-- Address and datum of each element, first to last.
abbrev pub Cells : Type 0
Cells = List (ℕ × ℕ)

abbrev pub data_of : Cells → List ℕ
data_of [] = []
data_of ((e, x) ∷ cs) = x ∷ data_of cs

-- From `p` the elements `cs` lead to `q`.
abbrev pub Leads : Memory → ℕ → Cells → ℕ → Type 0
Leads m p [] q = p ≡ q
Leads m p ((e, x) ∷ cs) q = (p ≡ e) × (e ≢ 0) × (datum m e ≡ x) × Leads m (next_of m e) cs q

abbrev pub last_addr : ℕ → Cells → ℕ
last_addr d [] = d
last_addr d ((e, x) ∷ cs) = last_addr e cs

abbrev pub head_addr : Cells → ℕ
head_addr [] = 0
head_addr ((e, x) ∷ cs) = e

abbrev pub is_at : ℕ → Cells → Bool
is_at e [] = false
is_at e ((d, x) ∷ cs) = (d == e) || is_at e cs

abbrev pub Apart : Cells → Type 0
Apart [] = Unit {0}
Apart ((e, x) ∷ cs) = (is_at e cs ≡ false) × Apart cs

abbrev pub Each : (ℕ → Type 0) → Cells → Type 0
Each P [] = Unit {0}
Each P ((e, x) ∷ cs) = P e × Each P cs

-- Where an element may stand: behind the header of a block.
abbrev pub IsElem : Layout → ℕ → Type 0
IsElem l e = (l.heap_start + 16 ≤ e) × ((e - l.heap_start) % 64 ≡ 16)

pub Leads-append :
    (m : Memory) (p : ℕ) (xs : Cells) (q : ℕ) (ys : Cells) (r : ℕ)
    → Leads m p xs q
    → Leads m q ys r
    → Leads m p (xs ++ ys) r
Leads-append m p [] q ys r e t = subst (λ k. Leads m k ys r) (sym e) t
Leads-append m p ((d, x) ∷ xs) q ys r (e, z, w, s) t =
    (e, z, w, Leads-append m (next_of m d) xs q ys r s t)

pub Leads-split :
    (m : Memory) (p : ℕ) (xs ys : Cells) (r : ℕ)
    → Leads m p (xs ++ ys) r
    → (q : ℕ) × Leads m p xs q × Leads m q ys r
Leads-split m p [] ys r s = (p, refl, s)
Leads-split m p ((d, x) ∷ xs) ys r (e, z, w, s) =
    let (q, a, b) = Leads-split m (next_of m d) xs ys r s in (q, (e, z, w, a), b)

-- A whole list begins where its first element is.
pub head-Leads : (m : Memory) (p : ℕ) (cs : Cells) → Leads m p cs 0 → p ≡ head_addr cs
head-Leads m p [] s = s
head-Leads m p ((e, x) ∷ cs) s = s.0

-- A memory that agrees on the elements.
pub Leads-same :
    (m m' : Memory) (p : ℕ) (cs : Cells) (q : ℕ)
    → Each (λ e. (m' e ≡ m e) × (m' (e + 8) ≡ m (e + 8))) cs
    → Leads m p cs q
    → Leads m' p cs q
Leads-same m m' p [] q same s = s
Leads-same m m' p ((e, x) ∷ cs) q ((d, n), same) (a, z, w, s) =
    (a, z, d ∙ w, subst (λ k. Leads m' k cs q) (sym n) (Leads-same m m' (m (e + 8)) cs q same s))

pub Each-append : (P : ℕ → Type 0) (xs ys : Cells) → Each P xs → Each P ys → Each P (xs ++ ys)
Each-append P [] ys a b = b
Each-append P (x ∷ xs) ys a b = (a.0, Each-append P xs ys a.1 b)

pub Each-split : (P : ℕ → Type 0) (xs ys : Cells) → Each P (xs ++ ys) → Each P xs × Each P ys
Each-split P [] ys a = (tt, a)
Each-split P (x ∷ xs) ys a = let r = Each-split P xs ys a.1 in ((a.0, r.0), r.1)

-- Of each element that is not at `e`.
pub Each-but :
    (P Q : ℕ → Type 0) (e : ℕ) (cs : Cells)
    → is_at e cs ≡ false
    → ((d : ℕ) → d ≢ e → P d → Q d)
    → Each P cs
    → Each Q cs
Each-but P Q e [] out f a = tt
Each-but P Q e ((d, x) ∷ cs) out f a =
    (f d (ground (arith, out)) a.0, Each-but P Q e cs (ground (arith, out)) f a.1)

pub is_at-append : (e : ℕ) (xs ys : Cells) → is_at e (xs ++ ys) ≡ (is_at e xs || is_at e ys)
is_at-append e [] ys = refl
is_at-append e ((d, x) ∷ xs) ys = ground (arith, is_at-append e xs ys)

-- Without the middle element, and with a new one there.
pub Apart-drop :
    (xs : Cells) (e x : ℕ) (ys : Cells)
    → Apart (xs ++ (e, x) ∷ ys)
    → (is_at e (xs ++ ys) ≡ false) × Apart (xs ++ ys)
Apart-drop [] e x ys a = a
Apart-drop ((d, y) ∷ xs) e x ys (out, a) =
    let (out', a') = Apart-drop xs e x ys a in
    (
      ground (arith, is_at-append d xs ((e, x) ∷ ys), out, out'),
      (ground (arith, is_at-append d xs ((e, x) ∷ ys), is_at-append d xs ys, out), a'),
    )

pub Apart-add :
    (xs : Cells) (e x : ℕ) (ys : Cells)
    → is_at e (xs ++ ys) ≡ false
    → Apart (xs ++ ys)
    → Apart (xs ++ (e, x) ∷ ys)
Apart-add [] e x ys out a = (out, a)
Apart-add ((d, y) ∷ xs) e x ys out (far, a) = (
  ground (arith, is_at-append d xs ((e, x) ∷ ys), is_at-append d xs ys, out, far),
  Apart-add xs e x ys (ground (arith, out)) a,
)

pub Each-last : (P : ℕ → Type 0) (d x : ℕ) (xs : Cells) → Each P ((d, x) ∷ xs) → P (last_addr d xs)
Each-last P d x [] a = a.0
Each-last P d x ((e, y) ∷ xs) a = Each-last P e y xs a.1

pub Each-other : (e : ℕ) (cs : Cells) → is_at e cs ≡ false → Each (λ d. d ≢ e) cs
Each-other e [] out = tt
Each-other e ((d, x) ∷ cs) out = (ground (arith, out), Each-other e cs (ground (arith, out)))

-- The words of different elements are different.
pub words_differ :
    (l : Layout) (a b : ℕ)
    → IsElem l a
    → IsElem l b
    → a ≢ b
    → (a ≢ b + 8) × (a + 8 ≢ b + 8) × (a + 8 ≢ b)
words_differ l a b (lo, k) (lo', k') ne =
    (λ e. omega arith, λ e. ne (omega arith), λ e. omega arith)

-- A new next pointer of the last element leads elsewhere.
pub Leads-turn :
    (l : Layout) (m : Memory) (p d x : ℕ) (xs : Cells) (q q' : ℕ)
    → Each (IsElem l) ((d, x) ∷ xs)
    → Apart ((d, x) ∷ xs)
    → Leads m p ((d, x) ∷ xs) q
    → Leads (store m (last_addr d xs + 8) q') p ((d, x) ∷ xs) q'
unfolding store
Leads-turn l m p d x [] q q' el far (e, z, w, s) = (e, z, ground arith, ground arith)
Leads-turn l m p d x ((d₂, y) ∷ xs) q q' el far (e, z, w, s) =
    let other = Each-last (λ k. k ≢ d) d₂ y xs (Each-other d ((d₂, y) ∷ xs) far.0) in
    let (n₁, n₂, n₃) =
      words_differ l d (last_addr d₂ xs) el.0 (Each-last (IsElem l) d₂ y xs el.1)
        (λ k. other (sym k)) in
    let same : store m (last_addr d₂ xs + 8) q' (d + 8) ≡ m (d + 8) = ground (arith, n₂) in
    (
      e,
      z,
      ground (arith, n₁, w),
      subst (λ k. Leads (store m (last_addr d₂ xs + 8) q') k ((d₂, y) ∷ xs) q') (sym same)
          (Leads-turn l m (m (d + 8)) d₂ y xs q q' el.1 far.1 s),
    )

-- Where the loops stop: behind the elements whose data pass, from the first.
abbrev pub front : (ℕ → Bool) → Cells → Cells
front f [] = []
front f ((e, x) ∷ cs) = if f x then (e, x) ∷ front f cs else []

abbrev pub back : (ℕ → Bool) → Cells → Cells
back f [] = []
back f ((e, x) ∷ cs) = if f x then back f cs else (e, x) ∷ cs

pub front-back : (f : ℕ → Bool) (cs : Cells) → front f cs ++ back f cs ≡ cs
front-back f [] = refl
front-back f ((e, x) ∷ cs) = ground (arith, front-back f cs)

abbrev pub differs : ℕ → ℕ → Bool
differs p x = not (x == p)

pub find_spec-walk :
    (fuel : ℕ) (m : Memory) (p prev curr : ℕ) (cs : Cells)
    → Leads m curr cs 0
    → length cs < fuel
    → find_spec fuel m p prev curr
      ≡ some (last_addr prev (front (differs p) cs), head_addr (back (differs p) cs))
unfolding find_spec
find_spec-walk zero m p prev curr cs s lt = absurd (omega arith)
find_spec-walk (suc fuel) m p prev curr [] s lt = ground (arith, s)
find_spec-walk (suc fuel) m p prev curr ((e, x) ∷ cs) (a, z, w, s) lt =
    let s' : Leads m (next_of m curr) cs 0 = subst (λ k. Leads m (next_of m k) cs 0) (sym a) s in
    let rest = find_spec-walk fuel m p curr (next_of m curr) cs s' (omega arith) in
    let here : datum m curr ≡ x = ap (datum m) a ∙ w in
    elim (Bool-cases (x == p)) [
      | inl hit ↦ ground (arith, a, z, here, hit)
      | inr miss ↦ ground (arith, a, z, here, miss, rest)
    ]

pub find_sorted-walk :
    (fuel : ℕ) (m : Memory) (cmp : ℕ → ℕ → Bool) (p prev curr : ℕ) (cs : Cells)
    → Leads m curr cs 0
    → length cs < fuel
    → find_sorted fuel m cmp p prev curr
      ≡ some (last_addr prev (front (λ x. cmp x p) cs), head_addr (back (λ x. cmp x p) cs))
unfolding find_sorted
find_sorted-walk zero m cmp p prev curr cs s lt = absurd (omega arith)
find_sorted-walk (suc fuel) m cmp p prev curr [] s lt = ground (arith, s)
find_sorted-walk (suc fuel) m cmp p prev curr ((e, x) ∷ cs) (a, z, w, s) lt =
    let s' : Leads m (next_of m curr) cs 0 = subst (λ k. Leads m (next_of m k) cs 0) (sym a) s in
    let rest = find_sorted-walk fuel m cmp p curr (next_of m curr) cs s' (omega arith) in
    let here : datum m curr ≡ x = ap (datum m) a ∙ w in
    elim (Bool-cases (cmp x p)) [
      | inl goes ↦ ground (arith, a, z, here, goes, rest)
      | inr stops ↦ ground (arith, a, z, here, stops)
    ]

pub before_tail-walk :
    (fuel : ℕ) (m : Memory) (t prev curr x : ℕ) (cs : Cells)
    → Leads m curr (cs ++ (t, x) ∷ []) 0
    → is_at t cs ≡ false
    → length cs < fuel
    → before_tail fuel m t prev curr ≡ some (last_addr prev cs)
unfolding before_tail
before_tail-walk zero m t prev curr x cs s out lt = absurd (omega arith)
before_tail-walk (suc fuel) m t prev curr x [] s out lt = ground (arith, s.0)
before_tail-walk (suc fuel) m t prev curr x ((e, y) ∷ cs) (a, z, w, s) out lt =
    let s' : Leads m (next_of m curr) (cs ++ (t, x) ∷ []) 0 =
      subst (λ k. Leads m (next_of m k) (cs ++ (t, x) ∷ []) 0) (sym a) s in
    let rest =
      before_tail-walk fuel m t curr (next_of m curr) x cs s' (ground (arith, out)) (omega arith) in
    ground (arith, a, rest, out)

pub Each-map : (P Q : ℕ → Type 0) (cs : Cells) → ((e : ℕ) → P e → Q e) → Each P cs → Each Q cs
Each-map P Q [] f a = tt
Each-map P Q ((e, x) ∷ cs) f a = (f e a.0, Each-map P Q cs f a.1)

pub Each-zip :
    (P Q R : ℕ → Type 0) (cs : Cells)
    → ((e : ℕ) → P e → Q e → R e)
    → Each P cs
    → Each Q cs
    → Each R cs
Each-zip P Q R [] f a b = tt
Each-zip P Q R ((e, x) ∷ cs) f a b = (f e a.0 b.0, Each-zip P Q R cs f a.1 b.1)

Each-outside : (cs : Cells) → Each (λ d. is_at d [] ≡ false) cs
Each-outside [] = tt
Each-outside ((e, x) ∷ cs) = (refl, Each-outside cs)

pub Apart-split :
    (xs ys : Cells) → Apart (xs ++ ys) → Apart xs × Apart ys × Each (λ d. is_at d xs ≡ false) ys
Apart-split [] ys a = (tt, a, Each-outside ys)
Apart-split ((e, x) ∷ xs) ys (out, a) =
    let (far_xs, far_ys, cross) = Apart-split xs ys a in
    let apart : (is_at e xs ≡ false) × (is_at e ys ≡ false) =
      (ground (arith, is_at-append e xs ys, out), ground (arith, is_at-append e xs ys, out)) in
    (
      (apart.0, far_xs),
      far_ys,
      Each-zip (λ d. d ≢ e) (λ d. is_at d xs ≡ false) (λ d. is_at d ((e, x) ∷ xs) ≡ false) ys
          (λ d ne o. ground (arith, ne, o)) (Each-other e ys apart.1) cross,
    )
