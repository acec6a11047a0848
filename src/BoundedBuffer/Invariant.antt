-- ===== src/BoundedBuffer/Invariant.antt =====
-- What holds of the shared buffer in every interleaving.
use oskernel_riscv.Base.{ℕ, ◌+◌, ◌%◌, ◌≡◌, refl, List, [], ◌∷◌, ◌++◌, arith, length}
use oskernel_riscv.BoundedBuffer.{
  Pc, put_awaits_tail, put_writes, put_advances, put_leaves, put_announces, get_awaits_head,
  get_reads, get_advances, get_leaves, get_announces, cnt_awaits_tail, cnt_reads, cnt_leaves_tail,
  cnt_leaves_head, Shared,
}
use oskernel_riscv.BoundedBuffer.Ring.{Window}

-- The threads that hold `mutexTail`, and those that hold `mutexHead`.
abbrev pub at_tail : Pc → ℕ
at_tail (put_writes v) = 1
at_tail put_advances = 1
at_tail put_leaves = 1
at_tail cnt_reads = 1
at_tail (cnt_leaves_tail r) = 1
at_tail _ = 0

abbrev pub at_head : Pc → ℕ
at_head get_reads = 1
at_head (get_advances r) = 1
at_head (get_leaves r) = 1
at_head cnt_awaits_tail = 1
at_head cnt_reads = 1
at_head (cnt_leaves_tail r) = 1
at_head (cnt_leaves_head r) = 1
at_head _ = 0

-- The threads between two statements: with a place for a value not yet written; with a value written and
-- not announced; with a claim to a value not yet read; with a value read whose place is not announced; before
-- the new `tail`; before the new `head`.
abbrev pub has_place : Pc → ℕ
has_place (put_awaits_tail v) = 1
has_place (put_writes v) = 1
has_place _ = 0

abbrev pub has_written : Pc → ℕ
has_written put_advances = 1
has_written put_leaves = 1
has_written put_announces = 1
has_written _ = 0

abbrev pub has_claim : Pc → ℕ
has_claim get_awaits_head = 1
has_claim get_reads = 1
has_claim _ = 0

abbrev pub has_read : Pc → ℕ
has_read (get_advances r) = 1
has_read (get_leaves r) = 1
has_read (get_announces r) = 1
has_read _ = 0

abbrev pub moves_tail : Pc → ℕ
moves_tail put_advances = 1
moves_tail _ = 0

abbrev pub moves_head : Pc → ℕ
moves_head (get_advances r) = 1
moves_head _ = 0

abbrev pub total : (Pc → ℕ) → List Pc → ℕ
total f [] = 0
total f (p ∷ ps) = f p + total f ps

pub total-middle :
    (f : Pc → ℕ) (xs : List Pc) (p : Pc) (ys : List Pc)
    → total f (xs ++ p ∷ ys) ≡ f p + total f (xs ++ ys)
total-middle f [] p ys = refl
total-middle f (x ∷ xs) p ys = omega (arith, total-middle f xs p ys)

-- The invariant, where `n f` is the number of threads that `f` counts: the semaphores count the places and the
-- values, the values written are those read and then `rest`, which stand in the ring, and a thread that
-- moves an index or reads holds the mutex of that side.
pub record Good (n : (Pc → ℕ) → ℕ) (b : Shared) : Type 0 where
  pub rest : List ℕ
  pub tail_at : ℕ
  pub head_at : ℕ
  pub one_at_tail : b.mutex_tail + n at_tail ≡ 1
  pub one_at_head : b.mutex_head + n at_head ≡ 1
  pub places : b.space_available + n has_place + length rest + n has_read + 1 ≡ b.cap
  pub values : length rest ≡ b.item_available + n has_written + n has_claim
  pub tail_is : b.tail ≡ tail_at % b.cap
  pub head_is : b.head ≡ head_at % b.cap
  pub tail_moves : length b.written ≡ tail_at + n moves_tail
  pub head_moves : length b.taken ≡ head_at + n moves_head
  pub first_in : b.written ≡ b.taken ++ rest
  pub stand : Window b.cap b.buffer (length b.taken) rest

-- The numbers for a thread at `p` and others.
abbrev pub beside : Pc → ((Pc → ℕ) → ℕ) → (Pc → ℕ) → ℕ
beside p n f = f p + n f

pub length-append : (xs ys : List ℕ) → length (xs ++ ys) ≡ length xs + length ys
length-append [] ys = omega arith
length-append (x ∷ xs) ys = omega (arith, length-append xs ys)

-- A step that changes semaphores alone.
pub counts_move :
    (m m' : (Pc → ℕ) → ℕ) (b : Shared) (space item h t : ℕ)
    → Good m b
    → t + m' at_tail ≡ 1
    → h + m' at_head ≡ 1
    → space + m' has_place + m' has_read ≡ b.space_available + m has_place + m has_read
    → item + m' has_written + m' has_claim ≡ b.item_available + m has_written + m has_claim
    → m' moves_tail ≡ m moves_tail
    → m' moves_head ≡ m moves_head
    → Good m' (record b {
      space_available = space;
      item_available = item;
      mutex_head = h;
      mutex_tail = t;
    })
counts_move m m' b space item h t g e₁ e₂ e₃ e₄ e₅ e₆ = record {
  rest = g.rest;
  tail_at = g.tail_at;
  head_at = g.head_at;
  one_at_tail = e₁;
  one_at_head = e₂;
  places = omega (arith, g.places, e₃);
  values = omega (arith, g.values, e₄);
  tail_is = g.tail_is;
  head_is = g.head_is;
  tail_moves = omega (arith, g.tail_moves, e₅);
  head_moves = omega (arith, g.head_moves, e₆);
  first_in = g.first_in;
  stand = g.stand;
}
