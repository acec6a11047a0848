-- ===== src/BoundedBuffer.antt =====
-- test/buffer.cpp: a bounded buffer that producers and consumers share, guarded by four semaphores. Any
-- thread may be stopped between two statements, so each statement is a step of its own.
pub mod Ring
pub mod Invariant
pub mod Statements
pub mod Safety
pub mod Progress
use oskernel_riscv.Base.{
  ℕ, zero, suc, ◌+◌, ◌-◌, ◌%◌, Bool, true, false, Option, none, some, List, [], ◌∷◌, ◌++◌, leb,
  ◌==◌, if◌then◌else◌, ◌>>=◌, ◌≡◌,
}

-- Where a thread stands in `put`, `get` or `getCnt`: before the statement that the name says. `outside` is
-- a thread that is in none of them.
pub data Pc : Type 0 where
  outside : Pc
  put_awaits_space put_awaits_tail put_writes : ℕ → Pc
  put_advances put_leaves put_announces : Pc
  get_awaits_item get_awaits_head get_reads : Pc
  get_advances get_leaves get_announces : ℕ → Pc
  cnt_awaits_head cnt_awaits_tail cnt_reads : Pc
  cnt_leaves_tail cnt_leaves_head : ℕ → Pc

-- The fields of `Buffer`, with the values of its semaphores, and the values written and read so far in
-- their order. A value counts the waits that may still pass.
pub record Shared : Type 0 where
  pub cap : ℕ
  pub buffer : ℕ → ℕ
  pub head : ℕ
  pub tail : ℕ
  pub space_available : ℕ
  pub item_available : ℕ
  pub mutex_head : ℕ
  pub mutex_tail : ℕ
  pub written : List ℕ
  pub taken : List ℕ

-- The constructor, given `_cap` and the memory of the array.
abbrev pub construct : ℕ → (ℕ → ℕ) → Shared
construct n memory = record {
  cap = n + 1;
  buffer = memory;
  head = 0;
  tail = 0;
  space_available = n;
  item_available = 0;
  mutex_head = 1;
  mutex_tail = 1;
  written = [];
  taken = [];
}

-- `sem_wait` of a semaphore with this value: what it leaves when the wait passes.
abbrev pub passes : ℕ → Option ℕ
passes zero = none
passes (suc n) = some n

-- The number of elements that `getCnt` computes.
abbrev pub count_of : Shared → ℕ
count_of b = if leb b.head b.tail then b.tail - b.head else b.cap - b.head + b.tail

abbrev pub place_at : (ℕ → ℕ) → ℕ → ℕ → ℕ → ℕ
place_at f i v j = if j == i then v else f j

-- The next statement of a thread, `none` while it waits for a semaphore.
unfoldable pub act : Pc → Shared → Option (Pc × Shared)
act outside b = none
act (put_awaits_space v) b = do
  n ← passes b.space_available
  some (put_awaits_tail v, record b { space_available = n })
act (put_awaits_tail v) b = do
  n ← passes b.mutex_tail
  some (put_writes v, record b { mutex_tail = n })
act (put_writes v) b =
    some (
      put_advances,
      record b { buffer = place_at b.buffer b.tail v; written = b.written ++ v ∷ [] },
    )
act put_advances b = some (put_leaves, record b { tail = (b.tail + 1) % b.cap })
act put_leaves b = some (put_announces, record b { mutex_tail = b.mutex_tail + 1 })
act put_announces b = some (outside, record b { item_available = b.item_available + 1 })
act get_awaits_item b = do
  n ← passes b.item_available
  some (get_awaits_head, record b { item_available = n })
act get_awaits_head b = do n ← passes b.mutex_head; some (get_reads, record b { mutex_head = n })
act get_reads b =
    some (get_advances (b.buffer b.head), record b { taken = b.taken ++ b.buffer b.head ∷ [] })
act (get_advances r) b = some (get_leaves r, record b { head = (b.head + 1) % b.cap })
act (get_leaves r) b = some (get_announces r, record b { mutex_head = b.mutex_head + 1 })
act (get_announces r) b = some (outside, record b { space_available = b.space_available + 1 })
act cnt_awaits_head b = do
  n ← passes b.mutex_head
  some (cnt_awaits_tail, record b { mutex_head = n })
act cnt_awaits_tail b = do n ← passes b.mutex_tail; some (cnt_reads, record b { mutex_tail = n })
act cnt_reads b = some (cnt_leaves_tail (count_of b), b)
act (cnt_leaves_tail r) b = some (cnt_leaves_head r, record b { mutex_tail = b.mutex_tail + 1 })
act (cnt_leaves_head r) b = some (outside, record b { mutex_head = b.mutex_head + 1 })

-- How `put`, `get` and `getCnt` begin.
pub data Enters : Pc → Type 0 where
  enters_put : (v : ℕ) → Enters (put_awaits_space v)
  enters_get : Enters get_awaits_item
  enters_cnt : Enters cnt_awaits_head

-- The states that any interleaving of the threads' statements reaches.
pub data Runs (ts : List Pc) (b : Shared) : List Pc → Shared → Type 0 where
  start : Runs ts b ts b
  calls :
      {b' : Shared} (xs ys : List Pc) (p : Pc)
      → Runs ts b (xs ++ outside ∷ ys) b'
      → Enters p
      → Runs ts b (xs ++ p ∷ ys) b'
  moves :
      {b' b'' : Shared} (xs ys : List Pc) (p q : Pc)
      → Runs ts b (xs ++ p ∷ ys) b'
      → act p b' ≡ some (q, b'')
      → Runs ts b (xs ++ q ∷ ys) b''
