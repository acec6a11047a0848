-- ===== src/Queue/MergeSort.antt =====
-- `sort` of h/_list.hpp with `mergeSort`, `getMiddle` and `merge`.
use oskernel_riscv.Base.{
  ℕ, zero, suc, ◌+◌, ◌/◌, ◌≤◌, ◌<◌, ◌≡◌, refl, sym, ap, ◌∙◌, Bool, Option, none, some, List, [],
  ◌∷◌, ◌++◌, arith, leb, if◌then◌else◌, ◌>>=◌, Bool-cases, if_both, length, length-append, inl, inr,
}
use oskernel_riscv.Queue.Count.{count, count-append}
use oskernel_riscv.Queue.Laws.{All}
use oskernel_riscv.Queue.Sorted.{All-le, Sorted}

-- `merge` while the first element of the left list is `x`; `rest` merges what is behind it.
abbrev merge_with : (ℕ → ℕ → Bool) → ℕ → List ℕ → (List ℕ → List ℕ) → List ℕ → List ℕ
merge_with cmp x xs rest [] = x ∷ xs
merge_with cmp x xs rest (y ∷ ys) =
    if cmp x y then x ∷ rest (y ∷ ys) else y ∷ merge_with cmp x xs rest ys

abbrev pub merge : (ℕ → ℕ → Bool) → List ℕ → List ℕ → List ℕ
merge cmp [] ys = ys
merge cmp (x ∷ xs) ys = merge_with cmp x xs (merge cmp xs) ys

-- `getMiddle` from its `slow` and `fast`: the list up to where `slow` stops, and the rest.
abbrev pub get_middle : List ℕ → List ℕ → List ℕ × List ℕ
get_middle [] fast = ([], [])
get_middle (s ∷ ss) [] = (s ∷ [], ss)
get_middle (s ∷ ss) (f ∷ []) = (s ∷ [], ss)
get_middle (s ∷ ss) (f ∷ g ∷ fs) = let (l, r) = get_middle ss fs in (s ∷ l, r)

-- `mergeSort` on fuel; the length of the list is enough.
unfoldable pub merge_sort : ℕ → (ℕ → ℕ → Bool) → List ℕ → Option (List ℕ)
merge_sort n cmp [] = some []
merge_sort n cmp (x ∷ []) = some (x ∷ [])
merge_sort zero cmp (x ∷ y ∷ xs) = none
merge_sort (suc n) cmp (x ∷ y ∷ xs) =
    let (l, r) = get_middle (x ∷ y ∷ xs) (y ∷ xs) in
    do left ← merge_sort n cmp l; right ← merge_sort n cmp r; some (merge cmp left right)

abbrev pub sort : (ℕ → ℕ → Bool) → List ℕ → Option (List ℕ)
sort cmp xs = merge_sort (length xs) cmp xs

get_middle-append : (ss fs : List ℕ) → (get_middle ss fs).0 ++ (get_middle ss fs).1 ≡ ss
get_middle-append [] fs = refl
get_middle-append (s ∷ ss) [] = refl
get_middle-append (s ∷ ss) (f ∷ []) = refl
get_middle-append (s ∷ ss) (f ∷ g ∷ fs) = ap (λ (l : List ℕ). s ∷ l) (get_middle-append ss fs)

get_middle-length :
    (ss fs : List ℕ) → length fs < length ss → length (get_middle ss fs).0 ≡ 1 + length fs / 2
get_middle-length [] fs h = absurd (omega arith)
get_middle-length (s ∷ ss) [] h = omega arith
get_middle-length (s ∷ ss) (f ∷ []) h = omega arith
get_middle-length (s ∷ ss) (f ∷ g ∷ fs) h = omega (arith, get_middle-length ss fs (omega arith))

module _ (f : ℕ → ℕ) where
  abbrev pub by_key : ℕ → ℕ → Bool
  by_key a b = leb (f a) (f b)

  merge_with-count :
      (p x : ℕ) (xs : List ℕ) (rest : List ℕ → List ℕ) (ys : List ℕ)
      → ((zs : List ℕ) → count p (rest zs) ≡ count p xs + count p zs)
      → count p (merge_with by_key x xs rest ys) ≡ count p (x ∷ xs) + count p ys
  merge_with-count p x xs rest [] h = omega arith
  merge_with-count p x xs rest (y ∷ ys) h = elim (Bool-cases (by_key x y)) [
    | inl e ↦ rw e (omega (arith, h (y ∷ ys)))
    | inr e ↦ rw e (omega (arith, merge_with-count p x xs rest ys h))
  ]

  merge-count : (p : ℕ) (xs ys : List ℕ) → count p (merge by_key xs ys) ≡ count p xs + count p ys
  merge-count p [] ys = omega arith
  merge-count p (x ∷ xs) ys =
      merge_with-count p x xs (merge by_key xs) ys (λ zs. merge-count p xs zs)

  merge_with-All :
      (P : ℕ → Type 0) (x : ℕ) (xs : List ℕ) (rest : List ℕ → List ℕ) (ys : List ℕ)
      → All P (x ∷ xs)
      → All P ys
      → ((zs : List ℕ) → All P zs → All P (rest zs))
      → All P (merge_with by_key x xs rest ys)
  merge_with-All P x xs rest [] a b h = a
  merge_with-All P x xs rest (y ∷ ys) a b h =
      if_both (All P) (by_key x y) (a.0, h (y ∷ ys) b) (b.0, merge_with-All P x xs rest ys a b.1 h)

  merge-All : (P : ℕ → Type 0) (xs ys : List ℕ) → All P xs → All P ys → All P (merge by_key xs ys)
  merge-All P [] ys a b = b
  merge-All P (x ∷ xs) ys a b =
      merge_with-All P x xs (merge by_key xs) ys a b (λ zs c. merge-All P xs zs a.1 c)

  merge_with-Sorted :
      (x : ℕ) (xs ys : List ℕ)
      → Sorted f (x ∷ xs)
      → Sorted f ys
      → ((zs : List ℕ) → Sorted f zs → Sorted f (merge by_key xs zs))
      → Sorted f (merge_with by_key x xs (merge by_key xs) ys)
  merge_with-Sorted x xs [] s t h = s
  merge_with-Sorted x xs (y ∷ ys) s t h = elim (Bool-cases (by_key x y)) [
    | inl e ↦ rw e (
      merge-All (λ z. f x ≤ f z) xs (y ∷ ys) s.0
          (ground arith, All-le f (f x) (f y) ys (ground arith) t.0),
      h (y ∷ ys) t,
    )
    | inr e ↦ rw e (
      merge_with-All (λ z. f y ≤ f z) x xs (merge by_key xs) ys
          (ground arith, All-le f (f y) (f x) xs (ground arith) s.0) t.0
          (λ zs c. merge-All (λ z. f y ≤ f z) xs zs (All-le f (f y) (f x) xs (ground arith) s.0) c),
      merge_with-Sorted x xs ys s t.1 h,
    )
  ]

  merge-Sorted : (xs ys : List ℕ) → Sorted f xs → Sorted f ys → Sorted f (merge by_key xs ys)
  merge-Sorted [] ys s t = t
  merge-Sorted (x ∷ xs) ys s t = merge_with-Sorted x xs ys s t (λ zs u. merge-Sorted xs zs s.1 u)

  Sorts : List ℕ → Option (List ℕ) → Type 0
  Sorts xs r = (ys : List ℕ) × (r ≡ some ys) × Sorted f ys × ((p : ℕ) → count p ys ≡ count p xs)

  merge_sort-Sorts : (n : ℕ) (xs : List ℕ) → length xs ≤ n → Sorts xs (merge_sort n by_key xs)
  unfolding merge_sort Sorts
  merge_sort-Sorts n [] h = ([], refl, tt, λ p. refl)
  merge_sort-Sorts n (x ∷ []) h = (x ∷ [], refl, (tt, tt), λ p. refl)
  merge_sort-Sorts zero (x ∷ y ∷ xs) h = absurd (omega arith)
  merge_sort-Sorts (suc n) (x ∷ y ∷ xs) h =
      let (l, r) = get_middle (x ∷ y ∷ xs) (y ∷ xs) in
      let whole = get_middle-append (x ∷ y ∷ xs) (y ∷ xs) in
      let half = get_middle-length (x ∷ y ∷ xs) (y ∷ xs) (omega arith) in
      let sum = sym (length-append l r) ∙ ap length whole in
      let (ls, el, sl, cl) = merge_sort-Sorts n l (omega (arith, half, sum, h)) in
      let (rs, er, sr, cr) = merge_sort-Sorts n r (omega (arith, half, sum, h)) in
      (
        merge by_key ls rs,
        rw (el, er) refl,
        merge-Sorted ls rs sl sr,
        λ p.
            merge-count p ls rs
            ∙ (omega (arith, cl p, cr p, count-append p l r) ∙ ap (count p) whole),
      )

  -- `sort` by a key ends, gives a list in order of the keys, and keeps every pointer as often as it was.
  pub sort-Sorted :
      (xs : List ℕ)
      → (ys : List ℕ) × (sort by_key xs ≡ some ys)
        × Sorted f ys
        × ((p : ℕ) → count p ys ≡ count p xs)
  unfolding Sorts
  sort-Sorted xs = merge_sort-Sorts (length xs) xs (omega arith)
