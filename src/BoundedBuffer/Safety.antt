-- ===== src/BoundedBuffer/Safety.antt =====
-- The buffer keeps the order of its values in every interleaving of producers and consumers.
use oskernel_riscv.Base.{
  ◌>>=◌, ℕ, zero, suc, ◌+◌, ◌%◌, ◌≤◌, ◌<◌, ◌≡◌, refl, sym, ap, ◌∙◌, subst, Option, none, some, List,
  [], ◌∷◌, ◌++◌, arith, length,
}
use oskernel_riscv.BoundedBuffer.{
  passes, Pc, outside, put_awaits_space, put_awaits_tail, put_writes, put_advances, put_leaves,
  put_announces, get_awaits_item, get_awaits_head, get_reads, get_advances, get_leaves,
  get_announces, cnt_awaits_head, cnt_awaits_tail, cnt_reads, cnt_leaves_tail, cnt_leaves_head,
  Shared, construct, act, Enters, enters_put, enters_get, enters_cnt, Runs, start, calls, moves,
  count_of,
}
use oskernel_riscv.BoundedBuffer.Invariant.{
  counts_move, at_tail, at_head, has_place, has_written, has_claim, has_read, moves_tail,
  moves_head, total, total-middle, Good, beside, length-append,
}
use oskernel_riscv.BoundedBuffer.Statements.{Keeps, act-Good}
use oskernel_riscv.BoundedBuffer.Ring.{distance}

-- No thread is in a method.
abbrev pub AllOutside : List Pc → Type 0
AllOutside [] = Unit {0}
AllOutside (p ∷ ps) = (p ≡ outside) × AllOutside ps

-- A thread that moves an index holds the mutex.
index_held : (p : Pc) → (moves_tail p ≤ at_tail p) × (moves_head p ≤ at_head p)
index_held outside = (omega arith, omega arith)
index_held (put_awaits_space v) = (omega arith, omega arith)
index_held (put_awaits_tail v) = (omega arith, omega arith)
index_held (put_writes v) = (omega arith, omega arith)
index_held put_advances = (omega arith, omega arith)
index_held put_leaves = (omega arith, omega arith)
index_held put_announces = (omega arith, omega arith)
index_held get_awaits_item = (omega arith, omega arith)
index_held get_awaits_head = (omega arith, omega arith)
index_held get_reads = (omega arith, omega arith)
index_held (get_advances r) = (omega arith, omega arith)
index_held (get_leaves r) = (omega arith, omega arith)
index_held (get_announces r) = (omega arith, omega arith)
index_held cnt_awaits_head = (omega arith, omega arith)
index_held cnt_awaits_tail = (omega arith, omega arith)
index_held cnt_reads = (omega arith, omega arith)
index_held (cnt_leaves_tail r) = (omega arith, omega arith)
index_held (cnt_leaves_head r) = (omega arith, omega arith)

indices_held :
    (ps : List Pc)
    → (total moves_tail ps ≤ total at_tail ps) × (total moves_head ps ≤ total at_head ps)
indices_held [] = (omega arith, omega arith)
indices_held (p ∷ ps) =
    let (a, b) = index_held p in let (c, d) = indices_held ps in (omega arith, omega arith)

-- Nobody counts among threads outside.
total-outside : (f : Pc → ℕ) (ps : List Pc) → f outside ≡ 0 → AllOutside ps → total f ps ≡ 0
total-outside f [] e a = refl
total-outside f (p ∷ ps) e (h, a) =
    let rest = total-outside f ps e a in let mine : f p ≡ f outside = ap f h in omega arith

-- The same numbers, the same invariant.
Good-same : (m m' : (Pc → ℕ) → ℕ) (b : Shared) → ((f : Pc → ℕ) → m f ≡ m' f) → Good m b → Good m' b
Good-same m m' b e g = record {
  rest = g.rest;
  tail_at = g.tail_at;
  head_at = g.head_at;
  one_at_tail = omega (arith, e at_tail);
  one_at_head = omega (arith, e at_head);
  places = omega (arith, e has_place, e has_read);
  values = omega (arith, e has_written, e has_claim);
  tail_is = g.tail_is;
  head_is = g.head_is;
  tail_moves = omega (arith, e moves_tail);
  head_moves = omega (arith, e moves_head);
  first_in = g.first_in;
  stand = g.stand;
}

-- Whoever enters a method counts as little as one outside.
Enters-same :
    (p : Pc) (n : (Pc → ℕ) → ℕ) (b : Shared)
    → Enters p
    → Good (beside outside n) b
    → Good (beside p n) b
Enters-same p n b (enters_put v) g =
    counts_move _ _ b b.space_available b.item_available b.mutex_head b.mutex_tail g (omega arith)
      (omega arith) (omega arith) (omega arith) refl refl
Enters-same p n b enters_get g =
    counts_move _ _ b b.space_available b.item_available b.mutex_head b.mutex_tail g (omega arith)
      (omega arith) (omega arith) (omega arith) refl refl
Enters-same p n b enters_cnt g =
    counts_move _ _ b b.space_available b.item_available b.mutex_head b.mutex_tail g (omega arith)
      (omega arith) (omega arith) (omega arith) refl refl

pub construct-Good :
    (n : ℕ) (memory : ℕ → ℕ) (ts : List Pc)
    → AllOutside ts
    → Good (λ f. total f ts) (construct n memory)
construct-Good n memory ts out =
    let none_of = λ (f : Pc → ℕ) (e : f outside ≡ 0). total-outside f ts e out in
    record {
      rest = [];
      tail_at = 0;
      head_at = 0;
      one_at_tail = omega (arith, none_of at_tail refl);
      one_at_head = omega (arith, none_of at_head refl);
      places = omega (arith, none_of has_place refl, none_of has_read refl);
      values = omega (arith, none_of has_written refl, none_of has_claim refl);
      tail_is = omega arith;
      head_is = omega arith;
      tail_moves = omega (arith, none_of moves_tail refl);
      head_moves = omega (arith, none_of moves_head refl);
      first_in = refl;
      stand = tt;
    }

-- One thread and the others.
apart :
    (xs ys : List Pc) (p : Pc) (b : Shared)
    → Good (λ f. total f (xs ++ p ∷ ys)) b
    → Good (beside p (λ f. total f (xs ++ ys))) b
apart xs ys p b = Good-same _ _ b (λ f. total-middle f xs p ys)

together :
    (xs ys : List Pc) (p : Pc) (b : Shared)
    → Good (beside p (λ f. total f (xs ++ ys))) b
    → Good (λ f. total f (xs ++ p ∷ ys)) b
together xs ys p b = Good-same _ _ b (λ f. sym (total-middle f xs p ys))

-- No statement changes the capacity.
abbrev SameCap : ℕ → Option (Pc × Shared) → Type 0
SameCap c none = Unit {0}
SameCap c (some (q, b)) = b.cap ≡ c

waits_same :
    (c x : ℕ) (q : Pc) (after : ℕ → Shared)
    → ((y : ℕ) → (after y).cap ≡ c)
    → SameCap c (passes x >>= λ y. some (q, after y))
waits_same c zero q after e = tt
waits_same c (suc x) q after e = e x

act-cap : (p : Pc) (b : Shared) → SameCap b.cap (act p b)
unfolding act
act-cap outside b = tt
act-cap (put_awaits_space v) b = waits_same b.cap b.space_available _ _ (λ y. refl)
act-cap (put_awaits_tail v) b = waits_same b.cap b.mutex_tail _ _ (λ y. refl)
act-cap (put_writes v) b = refl
act-cap put_advances b = refl
act-cap put_leaves b = refl
act-cap put_announces b = refl
act-cap get_awaits_item b = waits_same b.cap b.item_available _ _ (λ y. refl)
act-cap get_awaits_head b = waits_same b.cap b.mutex_head _ _ (λ y. refl)
act-cap get_reads b = refl
act-cap (get_advances r) b = refl
act-cap (get_leaves r) b = refl
act-cap (get_announces r) b = refl
act-cap cnt_awaits_head b = waits_same b.cap b.mutex_head _ _ (λ y. refl)
act-cap cnt_awaits_tail b = waits_same b.cap b.mutex_tail _ _ (λ y. refl)
act-cap cnt_reads b = refl
act-cap (cnt_leaves_tail r) b = refl
act-cap (cnt_leaves_head r) b = refl

-- The invariant holds in every interleaving.
pub Runs-Good :
    {ts : List Pc} {b : Shared} {ts' : List Pc} {b' : Shared}
    → Good (λ f. total f ts) b
    → Runs ts b ts' b'
    → (Good (λ f. total f ts') b') × (b'.cap ≡ b.cap)
Runs-Good g start = (g, refl)
Runs-Good g (calls {b'} xs ys p run enters) =
    let (good, same) = Runs-Good g run in
    (
      together xs ys p b'
          (Enters-same p (λ f. total f (xs ++ ys)) b' enters (apart xs ys outside b' good)),
      same,
    )
Runs-Good g (moves {b'} {b''} xs ys p q run e) =
    let (good, same) = Runs-Good g run in
    let (t, h) = indices_held (xs ++ ys) in
    let next = act-Good (λ f. total f (xs ++ ys)) p b' t h (apart xs ys p b' good) in
    (
      together xs ys q b'' (subst (Keeps (λ f. total f (xs ++ ys))) e next),
      subst (SameCap b'.cap) e (act-cap p b') ∙ same,
    )

-- With both mutexes held, the indices are those of the values.
count_is :
    (m : (Pc → ℕ) → ℕ) (b : Shared)
    → m moves_tail ≤ m at_tail
    → m moves_head ≤ m at_head
    → Good (beside cnt_reads m) b
    → count_of b + length b.taken ≡ length b.written
count_is m b t h g =
    let sum : length b.written ≡ length b.taken + length g.rest =
      ap length g.first_in ∙ length-append b.taken g.rest in
    let head_spot : g.head_at ≡ length b.taken = omega arith in
    let tail_spot : g.tail_at ≡ length b.taken + length g.rest = omega arith in
    let room : length g.rest < b.cap = omega arith in
    let gap = distance b.cap (length b.taken) (length g.rest) room in
    let heads : b.head ≡ length b.taken % b.cap = g.head_is ∙ ap (λ (i : ℕ). i % b.cap) head_spot in
    let tails : b.tail ≡ (length b.taken + length g.rest) % b.cap =
      g.tail_is ∙ ap (λ (i : ℕ). i % b.cap) tail_spot in
    let counted : count_of b ≡ length g.rest = rw (heads, tails) gap in omega arith

module _ (n : ℕ) (memory : ℕ → ℕ) (ts ts' : List Pc) (b : Shared) (out : AllOutside ts)
    (run : Runs ts (construct n memory) ts' b) where
  good : Good (λ f. total f ts') b
  good = (Runs-Good (construct-Good n memory ts out) run).0

  -- However the statements of any number of threads interleave, from a fresh buffer of capacity `n` with no
  -- thread in a method: at most one thread is behind the wait for each mutex and before its signal,
  -- the values that `get` has read are those that `put` wrote first, in the same order, and at most `n` values
  -- are written and not read.
  pub written-taken :
      (rest : List ℕ) × (b.written ≡ b.taken ++ rest)
      × (length rest ≤ n)
      × (total at_tail ts' ≤ 1)
      × (total at_head ts' ≤ 1)
  written-taken =
      let g = good in
      let cap = (Runs-Good (construct-Good n memory ts out) run).1 in
      (
        g.rest,
        g.first_in,
        omega (arith, g.places, cap),
        omega (arith, g.one_at_tail),
        omega (arith, g.one_at_head),
      )

  -- However the statements interleave, from a fresh buffer with no thread in a method: what `getCnt` computes
  -- once it holds both mutexes is the number of values that are written and not read at that moment.
  pub count_of-waiting :
      (xs ys : List Pc)
      → ts' ≡ xs ++ cnt_reads ∷ ys
      → count_of b + length b.taken ≡ length b.written
  count_of-waiting xs ys e =
      let (t, h) = indices_held (xs ++ ys) in
      count_is (λ f. total f (xs ++ ys)) b t h
        (apart xs ys cnt_reads b (subst (λ ps. Good (λ f. total f ps) b) e good))
