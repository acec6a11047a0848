-- ===== src/Allocator.antt =====
-- src/_memoryAllocator.cpp over a memory of 64-bit words. A block begins with a header of two
-- words: the address of the next block of its list, and its size in blocks of 64 bytes.
pub mod Chain
pub mod Cover
pub mod Data
pub mod Loops
pub mod Release
pub mod Search
pub mod Spared
pub mod Relink
pub mod Valid
pub mod Carve
pub mod Free
pub mod Join
pub mod Laws
pub mod Malloc
use oskernel_riscv.Base.{
  ℕ, zero, suc, ◌+◌, ◌-◌, ◌*◌, ◌/◌, ◌%◌, ◌^◌, Bool, true, false, not, Option, none, some, ◌==◌, ltb,
  if◌then◌else◌, ◌>>=◌, ◌||◌,
}
use oskernel_riscv.Base.Int.{ℤ, pos, negsuc}

abbrev pub block_size : ℕ
block_size = 64

abbrev pub size_header : ℕ
size_header = 2 * 8

-- The word at each address. No two accesses of the allocator overlap in part.
abbrev pub Memory : Type 0
Memory = ℕ → ℕ

unfoldable pub store : Memory → ℕ → ℕ → Memory
store m a v x = if x == a then v else m x

-- `HEAP_START_ADDR` and `HEAP_END_ADDR`, which the hardware library gives.
pub record Layout : Type 0 where
  pub heap_start : ℕ
  pub heap_end : ℕ

pub record Heap : Type 0 where
  pub mem : Memory
  pub head_free : ℕ
  pub head_taken : ℕ
  pub total_blocks : ℕ
  pub initialized : Bool

-- `(uint64)p + size * MEM_BLOCK_SIZE`, and `(uint64)p - SIZE_HEADER`.
unfoldable pub end_of : ℕ → ℕ → ℕ
end_of p size = (p + size * block_size) % 2 ^ 64

unfoldable pub header_of : ℕ → ℕ
header_of p = (p + 2 ^ 64 - size_header) % 2 ^ 64

unfoldable pub total_of : Layout → ℕ
total_of l = ((l.heap_end + 2 ^ 64 - l.heap_start) % 2 ^ 64) / block_size

-- `init` runs its body once.
unfoldable pub init : Layout → Heap → Heap
init l h = if h.initialized then h else record {
  mem = store (store h.mem l.heap_start 0) (l.heap_start + 8) (total_of l);
  head_free = l.heap_start;
  head_taken = 0;
  total_blocks = total_of l;
  initialized = true;
}

-- The search loops, on fuel; each gives the last block passed (0 for none) and the one it stops at.
-- `for (; cur && cur[1] < n; prev = cur, cur = cur[0])`
pub find_fit : ℕ → Memory → ℕ → ℕ → ℕ → Option (ℕ × ℕ)
find_fit zero m n prev cur = none
find_fit (suc fuel) m n prev cur =
    let rest = find_fit fuel m n cur (m cur) in
    if cur == 0 then some (prev, cur) else if ltb (m (cur + 8)) n then rest else some (prev, cur)

-- `for (; next && next != cur; prev = next, next = next[0])`
pub find_taken : ℕ → Memory → ℕ → ℕ → ℕ → Option (ℕ × ℕ)
find_taken zero m cur prev next = none
find_taken (suc fuel) m cur prev next =
    let rest = find_taken fuel m cur next (m next) in
    if next == 0 then some (prev, next) else if next == cur then some (prev, next) else rest

-- `for (; next && next < cur; prev = next, next = next[0])`
pub find_place : ℕ → Memory → ℕ → ℕ → ℕ → Option (ℕ × ℕ)
find_place zero m cur prev next = none
find_place (suc fuel) m cur prev next =
    let rest = find_place fuel m cur next (m next) in
    if next == 0 then some (prev, next) else if ltb next cur then rest else some (prev, next)

-- `if (prev) prev[0] = next; else head = next;`
unfoldable pub relink : ℕ → ℕ → Memory × ℕ → Memory × ℕ
relink prev next (m, head) = if prev == 0 then (m, next) else (store m prev next, head)

-- What `_kmalloc` does with the block that it found, when there is no leftover and when there is.
pub unlink_whole : ℕ → ℕ → Memory × ℕ → Memory × ℕ
unlink_whole prev cur (m, head) = relink prev (m cur) (m, head)

pub split_leftover : ℕ → ℕ → ℕ → Memory × ℕ → Memory × ℕ
split_leftover n prev cur (m, head) =
    let leftover = end_of cur n in
    let m₁ = store m leftover (m cur) in
    let m₂ = store m₁ (leftover + 8) ((m₁ (cur + 8) + 2 ^ 64 - n) % 2 ^ 64) in
    relink prev leftover (m₂, head)

-- The block's new header, and its way to the front of the taken list.
pub claim : ℕ → ℕ → Memory → ℕ → Memory
claim n cur m head_taken = store (store (store m (cur + 8) n) cur 0) cur head_taken

pub carve : ℕ → ℕ → ℕ → Heap → Heap
carve n prev cur h =
    let (m, head) =
      if n == h.mem (cur + 8)
      then unlink_whole prev cur (h.mem, h.head_free)
      else split_leftover n prev cur (h.mem, h.head_free) in
    record h { mem = claim n cur m h.head_taken; head_free = head; head_taken = cur }

-- A list of blocks has at most `total_blocks` entries, so this fuel suffices.
abbrev pub fuel_of : Heap → ℕ
fuel_of h = h.total_blocks + 1

-- The address behind the header, or 0; `none` means that the fuel ran out.
unfoldable pub kmalloc : Layout → ℕ → Heap → Option (ℕ × Heap)
kmalloc l n h₀ =
    let h = init l h₀ in
    if n == 0 then some (0, h) else (do
      (prev, cur) ← find_fit (fuel_of h) h.mem n 0 h.head_free
      if cur == 0 || h.head_free == 0
          then some (0, h)
          else some ((cur + size_header) % 2 ^ 64, carve n prev cur h))

-- The freed block beside its predecessor on the free list: joined with it, or linked behind it.
pub join_prev : ℕ → ℕ → Memory × ℕ → ℕ × Memory × ℕ
join_prev prev cur (m, head) =
    if prev == 0
    then (cur, m, cur)
    else if end_of prev (m (prev + 8)) == cur
    then (prev, store m (prev + 8) ((m (prev + 8) + m (cur + 8)) % 2 ^ 64), head)
    else (cur, store (store m cur (m prev)) prev cur, head)

-- And beside its successor.
pub join_next : ℕ → ℕ → Memory → Memory
join_next cur next m =
    if next == 0
    then m
    else if end_of cur (m (cur + 8)) == next
    then (let m₁ = store m (cur + 8) ((m (cur + 8) + m (next + 8)) % 2 ^ 64) in
        store m₁ cur (m₁ next))
    else store m cur next

pub give_back : ℕ → ℕ → ℕ → Memory → ℕ → Memory × ℕ
give_back prev next cur m head =
    let (cur', m', head') = join_prev prev cur (m, head) in (join_next cur' next m', head')

unfoldable pub kmfree : ℕ → Heap → Option (ℤ × Heap)
kmfree p h =
    let cur = header_of p in
    if p == 0 then some (pos 0, h) else (do
      (prev, found) ← find_taken (fuel_of h) h.mem cur 0 h.head_taken
      if found == 0
          then some (negsuc 0, h)
          else (let (m₁, taken) = relink prev (h.mem found) (h.mem, h.head_taken) in
              let m₂ = store m₁ cur 0 in
              do
                (before, after) ← find_place (fuel_of h) m₂ cur 0 h.head_free
                let r = give_back before after cur m₂ h.head_free
                some (pos 0, record h { mem = r.0; head_free = r.1; head_taken = taken })))
