-- ===== src/Elements/Operations.antt =====
-- The operations of `_list` on the heap, and on the list of pointers that the rest of the kernel works with.
use oskernel_riscv.Base.{ℕ, Bool, true, false, Option, some, List, ◌>>=◌}
use oskernel_riscv.Allocator.{Layout, Heap}
use oskernel_riscv.Queue
use oskernel_riscv.Queue.Ends
use oskernel_riscv.Elements.{
  Ends, add_first, add_last, peek_first, peek_last, remove_first, remove_last, remove_spec,
  insert_sorted,
}

pub data Op : Type 0 where
  adds_first adds_last removes : ℕ → Op
  inserts : (ℕ → ℕ → Bool) → ℕ → Op
  removes_first removes_last shows_first shows_last : Op

pub data Answer : Type 0 where
  nothing : Answer
  pointer : ℕ → Answer
  found : Bool → Answer

-- An operation without a result.
abbrev pub silently : Option (Ends × Heap) → Option (Answer × Ends × Heap)
silently r = do k ← r; some (nothing, k.0, k.1)

-- On the elements in memory.
unfoldable pub exec : Layout → Op → Ends → Heap → Option (Answer × Ends × Heap)
exec l (adds_first p) q h = silently (add_first l p q h)
exec l (adds_last p) q h = silently (add_last l p q h)
exec l (inserts cmp p) q h = silently (insert_sorted l cmp p q h)
exec l (removes p) q h = do r ← remove_spec p q h; some (found r.0, r.1, r.2)
exec l removes_first q h = do r ← remove_first q h; some (pointer r.0, r.1, r.2)
exec l removes_last q h = do r ← remove_last q h; some (pointer r.0, r.1, r.2)
exec l shows_first q h = some (pointer (peek_first q h), q, h)
exec l shows_last q h = some (pointer (peek_last q h), q, h)

-- On the list of pointers.
unfoldable pub model : Op → List ℕ → Answer × List ℕ
model (adds_first p) ps = (nothing, Queue.Ends.add_first p ps)
model (adds_last p) ps = (nothing, Queue.add_last ps p)
model (inserts cmp p) ps = (nothing, Queue.insert_sorted cmp p ps)
model (removes p) ps = let r = Queue.remove_spec p ps in (found r.0, r.1)
model removes_first ps = let r = Queue.remove_first ps in (pointer r.0, r.1)
model removes_last ps = let r = Queue.Ends.remove_last ps in (pointer r.0, r.1)
model shows_first ps = (pointer (Queue.Ends.peek_first ps), ps)
model shows_last ps = (pointer (Queue.Ends.peek_last ps), ps)

-- The operations that need memory for an element.
abbrev pub is_adding : Op → Bool
is_adding (adds_first p) = true
is_adding (adds_last p) = true
is_adding (inserts cmp p) = true
is_adding _ = false
