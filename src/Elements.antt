-- ===== src/Elements.antt =====
-- h/_list.hpp in memory: each element is a block of the allocator that holds the pointer to a datum and, in the
-- next word, the address of the next element. `none` stands for a write through the null pointer
-- that the allocator gave.
pub mod Links
pub mod Owned
pub mod Turned
pub mod Splice
pub mod Unlink
pub mod Loops
pub mod Operations
pub mod Outcomes
pub mod Adding
pub mod Removing
pub mod Refine
pub mod Beside
use oskernel_riscv.Base.{
  ℕ, zero, suc, ◌+◌, ◌-◌, ◌/◌, ◌%◌, ◌^◌, Bool, true, false, not, ◌&&◌, Option, none, some, List, [],
  ◌∷◌, ◌==◌, if◌then◌else◌, ◌>>=◌,
}
use oskernel_riscv.Allocator.{
  Layout, Heap, Memory, store, kmalloc, kmfree, block_size, size_header, fuel_of,
}

-- `head` and `tail`
pub record Ends : Type 0 where
  pub head : ℕ
  pub tail : ℕ

abbrev pub empty : Ends
empty = record { head = 0; tail = 0 }

-- `elem->data` and `elem->next`
abbrev pub datum : Memory → ℕ → ℕ
datum m e = m e

abbrev pub next_of : Memory → ℕ → ℕ
next_of m e = m (e + 8)

abbrev pub set_next : ℕ → ℕ → Heap → Heap
set_next e q h = record h { mem = store h.mem (e + 8) q }

-- `(SIZE_HEADER + sizeof(Elem) + MEM_BLOCK_SIZE - 1) / MEM_BLOCK_SIZE`
abbrev pub elem_blocks : ℕ
elem_blocks = (size_header + 16 + block_size - 1) / block_size

-- A new element with its two fields.
unfoldable pub new_elem : Layout → ℕ → ℕ → Heap → Option (ℕ × Heap)
new_elem l p q h = do
  r ← kmalloc l elem_blocks h
  if r.0 == 0
      then none
      else some (r.0, record r.1 { mem = store (store r.1.mem r.0 p) (r.0 + 8) q })

-- `addFirst`
unfoldable pub add_first : Layout → ℕ → Ends → Heap → Option (Ends × Heap)
unfolding new_elem
add_first l p q h = do
  r ← new_elem l p q.head h
  some (record { head = r.0; tail = if q.tail == 0 then r.0 else q.tail }, r.1)

-- `addLast`
unfoldable pub add_last : Layout → ℕ → Ends → Heap → Option (Ends × Heap)
unfolding new_elem
add_last l p q h = do
  r ← new_elem l p 0 h
  if q.tail == 0
      then some (record { head = r.0; tail = r.0 }, r.1)
      else some (record q { tail = r.0 }, set_next q.tail r.0 r.1)

-- `peekFirst` and `peekLast`
abbrev pub peek_first : Ends → Heap → ℕ
peek_first q h = if q.head == 0 then 0 else datum h.mem q.head

abbrev pub peek_last : Ends → Heap → ℕ
peek_last q h = if q.tail == 0 then 0 else datum h.mem q.tail

-- `removeFirst`
unfoldable pub remove_first : Ends → Heap → Option (ℕ × Ends × Heap)
remove_first q h =
    if q.head == 0
    then some (0, q, h)
    else (let next = next_of h.mem q.head in
        do
          r ← kmfree q.head h
          some (
            datum h.mem q.head,
            record { head = next; tail = if next == 0 then 0 else q.tail },
            r.1,
          ))

-- `for (curr = head; curr != tail; curr = curr->next) prev = curr;` on fuel
pub before_tail : ℕ → Memory → ℕ → ℕ → ℕ → Option ℕ
before_tail zero m tail prev curr = none
before_tail (suc fuel) m tail prev curr =
    let rest = before_tail fuel m tail curr (next_of m curr) in
    if curr == tail then some prev else rest

-- `removeLast`
unfoldable pub remove_last : Ends → Heap → Option (ℕ × Ends × Heap)
unfolding before_tail
remove_last q h = if q.head == 0 then some (0, q, h) else (do
  prev ← before_tail (fuel_of h) h.mem q.tail 0 q.head
  let h₁ = if prev == 0 then h else set_next prev 0 h
  r ← kmfree q.tail h₁
  some (datum h₁.mem q.tail, if prev == 0 then empty else record q { tail = prev }, r.1))

-- The loop of `removeSpec`: the element that holds the pointer, or null, and the one before it.
pub find_spec : ℕ → Memory → ℕ → ℕ → ℕ → Option (ℕ × ℕ)
find_spec zero m p prev curr = none
find_spec (suc fuel) m p prev curr =
    let rest = find_spec fuel m p curr (next_of m curr) in
    if curr == 0 then some (prev, 0) else if datum m curr == p then some (prev, curr) else rest

-- Its element is taken off and given back.
pub take_off : ℕ → ℕ → Ends → Heap → Option (Bool × Ends × Heap)
take_off prev curr q h =
    let next = next_of h.mem curr in
    let h₁ = if prev == 0 then h else set_next prev next h in
    do
      r ← kmfree curr h₁
      some (
        true,
        record {
          head = if prev == 0 then next else q.head;
          tail = if curr == q.tail then prev else q.tail;
        },
        r.1,
      )

unfoldable pub remove_spec : ℕ → Ends → Heap → Option (Bool × Ends × Heap)
unfolding find_spec take_off
remove_spec p q h = if p == 0 then some (false, q, h) else (do
  (prev, curr) ← find_spec (fuel_of h) h.mem p 0 q.head
  if curr == 0 then some (false, q, h) else take_off prev curr q h)

-- The loop of `insert_sorted`: the element before which the new one comes, or null, and the one before it.
pub find_sorted : ℕ → Memory → (ℕ → ℕ → Bool) → ℕ → ℕ → ℕ → Option (ℕ × ℕ)
find_sorted zero m cmp p prev curr = none
find_sorted (suc fuel) m cmp p prev curr =
    let rest = find_sorted fuel m cmp p curr (next_of m curr) in
    if curr == 0 then some (prev, 0) else if cmp (datum m curr) p then rest else some (prev, curr)

-- The new element goes between the two.
pub put_between : Layout → ℕ → ℕ → ℕ → Ends → Heap → Option (Ends × Heap)
unfolding new_elem
put_between l p prev curr q h = do
  r ← new_elem l p curr h
  some (
    record { head = if prev == 0 then r.0 else q.head; tail = if curr == 0 then r.0 else q.tail },
    if prev == 0 then r.1 else set_next prev r.0 r.1,
  )

unfoldable pub insert_sorted : Layout → (ℕ → ℕ → Bool) → ℕ → Ends → Heap → Option (Ends × Heap)
unfolding find_sorted put_between
insert_sorted l cmp p q h = if p == 0 then some (q, h) else (do
  (prev, curr) ← find_sorted (fuel_of h) h.mem cmp p 0 q.head
  put_between l p prev curr q h)
