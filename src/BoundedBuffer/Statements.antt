-- ===== src/BoundedBuffer/Statements.antt =====
-- Each statement of the buffer keeps the invariant.
use oskernel_riscv.Base.{
  ℕ, zero, suc, ◌+◌, ◌%◌, ◌≤◌, ◌<◌, ◌≡◌, refl, sym, ap, ◌∙◌, subst, Option, none, some, List, [],
  ◌∷◌, ◌++◌, arith, length, append_assoc, ◌>>=◌,
}
use oskernel_riscv.BoundedBuffer.{
  passes, Pc, outside, put_awaits_space, put_awaits_tail, put_writes, put_advances, put_leaves,
  put_announces, get_awaits_item, get_awaits_head, get_reads, get_advances, get_leaves,
  get_announces, cnt_awaits_head, cnt_awaits_tail, cnt_reads, cnt_leaves_tail, cnt_leaves_head,
  Shared, act, place_at,
}
use oskernel_riscv.BoundedBuffer.Ring.{Window, next_cell, Window-place_at, Window-add}
use oskernel_riscv.BoundedBuffer.Invariant.{
  at_tail, at_head, moves_tail, moves_head, Good, beside, length-append, counts_move,
}

-- What a statement that does not wait leads to.
abbrev pub Keeps : ((Pc → ℕ) → ℕ) → Option (Pc × Shared) → Type 0
Keeps n none = Unit {0}
Keeps n (some (q, b)) = Good (beside q n) b

module _ (n : (Pc → ℕ) → ℕ) where
  waits :
      (q : Pc) (x : ℕ) (after : ℕ → Shared)
      → ((y : ℕ) → x ≡ suc y → Good (beside q n) (after y))
      → Keeps n (passes x >>= λ y. some (q, after y))
  waits q zero after k = tt
  waits q (suc x) after k = k x refl

  -- The four statements that change the ring: they hold the mutex of their side.
  writes-Good :
      (v : ℕ) (b : Shared)
      → n moves_tail ≤ n at_tail
      → Good (beside (put_writes v) n) b
      → Good
          (beside put_advances n)
          (record b { buffer = place_at b.buffer b.tail v; written = b.written ++ v ∷ [] })
  writes-Good v b le g =
      let sum : length b.written ≡ length b.taken + length g.rest =
        ap length g.first_in ∙ length-append b.taken g.rest in
      let spot : g.tail_at ≡ length b.taken + length g.rest = omega arith in
      let at : b.tail ≡ (length b.taken + length g.rest) % b.cap =
        g.tail_is ∙ ap (λ (i : ℕ). i % b.cap) spot in
      let room : length g.rest < b.cap = omega arith in
      let kept : Window b.cap (place_at b.buffer ((length b.taken + length g.rest) % b.cap) v)
          (length b.taken) g.rest =
        Window-place_at b.cap (length b.taken) b.buffer v (length g.rest) g.rest (omega arith) room
          g.stand in
      let added : Window b.cap (place_at b.buffer ((length b.taken + length g.rest) % b.cap) v)
          (length b.taken) (g.rest ++ v ∷ []) =
        Window-add b.cap (length b.taken)
          (place_at b.buffer ((length b.taken + length g.rest) % b.cap) v) v g.rest kept
          (ground arith) in
      let longer : length (g.rest ++ v ∷ []) ≡ length g.rest + 1 = length-append g.rest (v ∷ []) in
      let more : length (b.written ++ v ∷ []) ≡ length b.written + 1 =
        length-append b.written (v ∷ []) in
      record {
        rest = g.rest ++ v ∷ [];
        tail_at = g.tail_at;
        head_at = g.head_at;
        one_at_tail = omega arith;
        one_at_head = omega arith;
        places = omega arith;
        values = omega arith;
        tail_is = g.tail_is;
        head_is = g.head_is;
        tail_moves = omega arith;
        head_moves = g.head_moves;
        first_in =
            ap (λ (l : List ℕ). l ++ v ∷ []) g.first_in ∙ append_assoc b.taken g.rest (v ∷ []);
        stand =
            subst (λ t. Window b.cap (place_at b.buffer t v) (length b.taken) (g.rest ++ v ∷ []))
              (sym at) added;
      }

  advances-Good :
      (b : Shared)
      → Good (beside put_advances n) b
      → Good (beside put_leaves n) (record b { tail = (b.tail + 1) % b.cap })
  advances-Good b g = record {
    rest = g.rest;
    tail_at = g.tail_at + 1;
    head_at = g.head_at;
    one_at_tail = omega arith;
    one_at_head = omega arith;
    places = omega arith;
    values = omega arith;
    tail_is = ap (λ (i : ℕ). (i + 1) % b.cap) g.tail_is ∙ next_cell b.cap g.tail_at;
    head_is = g.head_is;
    tail_moves = omega arith;
    head_moves = g.head_moves;
    first_in = g.first_in;
    stand = g.stand;
  }

  reads-Good :
      (b : Shared)
      → n moves_head ≤ n at_head
      → Good (beside get_reads n) b
      → Good
          (beside (get_advances (b.buffer b.head)) n)
          (record b { taken = b.taken ++ b.buffer b.head ∷ [] })
  reads-Good b le g =
      let (x, ys, split) = front g.rest (omega arith) in
      let spot : g.head_at ≡ length b.taken = omega arith in
      let stands : Window b.cap b.buffer (length b.taken) (x ∷ ys) =
        subst (Window b.cap b.buffer (length b.taken)) split g.stand in
      let value : b.buffer b.head ≡ x =
        ap b.buffer (g.head_is ∙ ap (λ (i : ℕ). i % b.cap) spot) ∙ stands.0 in
      let size : length g.rest ≡ suc (length ys) = ap length split in
      let more : length (b.taken ++ b.buffer b.head ∷ []) ≡ length b.taken + 1 =
        length-append b.taken (b.buffer b.head ∷ []) in
      record {
        rest = ys;
        tail_at = g.tail_at;
        head_at = g.head_at;
        one_at_tail = omega arith;
        one_at_head = omega arith;
        places = omega arith;
        values = omega arith;
        tail_is = g.tail_is;
        head_is = g.head_is;
        tail_moves = g.tail_moves;
        head_moves = omega arith;
        first_in =
            g.first_in
            ∙ (ap (λ (l : List ℕ). b.taken ++ l) (split ∙ ap (λ (y : ℕ). y ∷ ys) (sym value))
                ∙ sym (append_assoc b.taken (b.buffer b.head ∷ []) ys));
        stand = subst (λ i. Window b.cap b.buffer i ys) (sym more) stands.1;
      }
    where
      front : (xs : List ℕ) → 0 < length xs → (x : ℕ) × (ys : List ℕ) × (xs ≡ x ∷ ys)
      front [] lt = absurd (omega arith)
      front (x ∷ xs) lt = (x, xs, refl)

  moves-Good :
      (r : ℕ) (b : Shared)
      → Good (beside (get_advances r) n) b
      → Good (beside (get_leaves r) n) (record b { head = (b.head + 1) % b.cap })
  moves-Good r b g = record {
    rest = g.rest;
    tail_at = g.tail_at;
    head_at = g.head_at + 1;
    one_at_tail = omega arith;
    one_at_head = omega arith;
    places = omega arith;
    values = omega arith;
    tail_is = g.tail_is;
    head_is = ap (λ (i : ℕ). (i + 1) % b.cap) g.head_is ∙ next_cell b.cap g.head_at;
    tail_moves = g.tail_moves;
    head_moves = omega arith;
    first_in = g.first_in;
    stand = g.stand;
  }

  pub act-Good :
      (p : Pc) (b : Shared)
      → n moves_tail ≤ n at_tail
      → n moves_head ≤ n at_head
      → Good (beside p n) b
      → Keeps n (act p b)
  unfolding act
  act-Good outside b le le' g = tt
  act-Good (put_awaits_space v) b le le' g = waits (put_awaits_tail v) b.space_available _ (λ y e.
      counts_move _ _ b y b.item_available b.mutex_head b.mutex_tail g (omega arith) (omega arith)
        (omega arith) (omega arith) refl refl)
  act-Good (put_awaits_tail v) b le le' g = waits (put_writes v) b.mutex_tail _ (λ y e.
      counts_move _ _ b b.space_available b.item_available b.mutex_head y g (omega arith)
        (omega arith) (omega arith) (omega arith) refl refl)
  act-Good (put_writes v) b le le' g = writes-Good v b le g
  act-Good put_advances b le le' g = advances-Good b g
  act-Good put_leaves b le le' g =
      counts_move _ _ b b.space_available b.item_available b.mutex_head (b.mutex_tail + 1) g
        (omega arith) (omega arith) (omega arith) (omega arith) refl refl
  act-Good put_announces b le le' g =
      counts_move _ _ b b.space_available (b.item_available + 1) b.mutex_head b.mutex_tail g
        (omega arith) (omega arith) (omega arith) (omega arith) refl refl
  act-Good get_awaits_item b le le' g = waits get_awaits_head b.item_available _ (λ y e.
      counts_move _ _ b b.space_available y b.mutex_head b.mutex_tail g (omega arith) (omega arith)
        (omega arith) (omega arith) refl refl)
  act-Good get_awaits_head b le le' g = waits get_reads b.mutex_head _ (λ y e.
      counts_move _ _ b b.space_available b.item_available y b.mutex_tail g (omega arith)
        (omega arith) (omega arith) (omega arith) refl refl)
  act-Good get_reads b le le' g = reads-Good b le' g
  act-Good (get_advances r) b le le' g = moves-Good r b g
  act-Good (get_leaves r) b le le' g =
      counts_move _ _ b b.space_available b.item_available (b.mutex_head + 1) b.mutex_tail g
        (omega arith) (omega arith) (omega arith) (omega arith) refl refl
  act-Good (get_announces r) b le le' g =
      counts_move _ _ b (b.space_available + 1) b.item_available b.mutex_head b.mutex_tail g
        (omega arith) (omega arith) (omega arith) (omega arith) refl refl
  act-Good cnt_awaits_head b le le' g = waits cnt_awaits_tail b.mutex_head _ (λ y e.
      counts_move _ _ b b.space_available b.item_available y b.mutex_tail g (omega arith)
        (omega arith) (omega arith) (omega arith) refl refl)
  act-Good cnt_awaits_tail b le le' g = waits cnt_reads b.mutex_tail _ (λ y e.
      counts_move _ _ b b.space_available b.item_available b.mutex_head y g (omega arith)
        (omega arith) (omega arith) (omega arith) refl refl)
  act-Good cnt_reads b le le' g =
      counts_move _ _ b b.space_available b.item_available b.mutex_head b.mutex_tail g (omega arith)
        (omega arith) (omega arith) (omega arith) refl refl
  act-Good (cnt_leaves_tail r) b le le' g =
      counts_move _ _ b b.space_available b.item_available b.mutex_head (b.mutex_tail + 1) g
        (omega arith) (omega arith) (omega arith) (omega arith) refl refl
  act-Good (cnt_leaves_head r) b le le' g =
      counts_move _ _ b b.space_available b.item_available (b.mutex_head + 1) b.mutex_tail g
        (omega arith) (omega arith) (omega arith) (omega arith) refl refl
