-- ===== src/Console/Fifo.antt =====
-- A console buffer is a queue of at most 1023 characters.
use oskernel_riscv.Base.{
  ℕ, zero, suc, ◌+◌, ◌-◌, ◌%◌, ◌≤◌, ◌<◌, ◌≡◌, refl, sym, ap, ◌∙◌, subst, ◌≢◌, inl, inr, Bool, true,
  some, List, [], ◌∷◌, ◌++◌, arith, ◌==◌, if◌then◌else◌, Bool-cases, length,
}
use oskernel_riscv.Console.{
  num_of_chars, Buffer, write, next_index, put_char_in_buffer, get_char_from_buffer, print_one,
  print_all, may_receive, receive_one,
}
use oskernel_riscv.Base.Int.{ℤ, pos, negsuc}

pub record IsBuffer (b : Buffer) : Type 0 where
  pub head_in : b.head < num_of_chars
  pub tail_in : b.tail < num_of_chars

-- The `n` characters from index `i` on, going round at the end.
abbrev pub window : (ℕ → ℕ) → ℕ → ℕ → List ℕ
window f i zero = []
window f i (suc n) = f i ∷ window f (next_index i) n

abbrev pub size : Buffer → ℕ
size b = (b.head + num_of_chars - b.tail) % num_of_chars

-- The characters in the buffer, oldest first.
abbrev pub contents : Buffer → List ℕ
contents b = window b.chars b.tail (size b)

length-window : (f : ℕ → ℕ) (i n : ℕ) → length (window f i n) ≡ n
length-window f i zero = refl
length-window f i (suc n) = ap suc (length-window f (next_index i) n)

pub length-contents : (b : Buffer) → length (contents b) ≡ size b
length-contents b = length-window b.chars b.tail (size b)

-- Fewer than 1024 steps from an index do not lead back to it.
step-ne : (i n : ℕ) → i < num_of_chars → suc n < num_of_chars → (i + suc n) % num_of_chars ≢ i
step-ne i n hi hn = omega arith

-- A write just behind a window extends it.
window-write :
    (f : ℕ → ℕ) (c n i j : ℕ)
    → i < num_of_chars
    → n < num_of_chars
    → j ≡ (i + n) % num_of_chars
    → window (write f j c) i (suc n) ≡ window f i n ++ c ∷ []
window-write f c zero i j hi hn e = ground arith
window-write f c (suc n) i j hi hn e =
    let rest = window-write f c n (next_index i) j (omega arith) (omega arith) (omega arith) in
    let first : write f j c i ≡ f i = ground (arith, step-ne i n hi hn) in rw (first, rest)

contents-cons :
    (b : Buffer)
    → IsBuffer b
    → b.head ≢ b.tail
    → contents b ≡ b.chars b.tail ∷ contents (record b { tail = next_index b.tail })
contents-cons b v ne =
    let fewer : size b ≡ suc (size (record b { tail = next_index b.tail })) = ground arith in
    ap (λ (n : ℕ). window b.chars b.tail n) fewer

contents-nil : (b : Buffer) → IsBuffer b → b.head ≡ b.tail → contents b ≡ []
contents-nil b v e =
    let none_in : size b ≡ 0 = ground arith in ap (λ (n : ℕ). window b.chars b.tail n) none_in

-- `putCharInBuffer` and `getCharFromBuffer` on the queue of the characters.
abbrev pub push : ℕ → List ℕ → ℤ × List ℕ
push ch q = if length q == num_of_chars - 1 then (negsuc 0, q) else (pos 0, q ++ ch ∷ [])

abbrev pub pop : List ℕ → ℕ × List ℕ
pop [] = (255, [])
pop (c ∷ q) = (c, q)

pub put-IsBuffer : (ch : ℕ) (b : Buffer) → IsBuffer b → IsBuffer (put_char_in_buffer ch b).1
unfolding put_char_in_buffer
put-IsBuffer ch b v = ground arith

pub get-IsBuffer : (b : Buffer) → IsBuffer b → IsBuffer (get_char_from_buffer b).1
unfolding get_char_from_buffer
get-IsBuffer b v = ground arith

-- `putCharInBuffer` puts the character behind those in the buffer and returns 0; with 1023 characters
-- in the buffer it returns -1 and changes nothing.
pub put_refines :
    (ch : ℕ) (b : Buffer)
    → IsBuffer b
    → let (r, b') = put_char_in_buffer ch b in (r, contents b') ≡ push ch (contents b)
unfolding put_char_in_buffer
put_refines ch b v = elim (Bool-cases (next_index b.head == b.tail)) [
  | inl full ↦
      let same : put_char_in_buffer ch b ≡ (negsuc 0, b) = rw (full, put_char_in_buffer) in
      let many : size b ≡ num_of_chars - 1 = ground arith in
      subst (λ (r : ℤ × Buffer). (r.0, contents r.1) ≡ push ch (contents b)) (sym same)
        (ground (arith, length-contents b, many))
  | inr room ↦
      let b' : Buffer = record b { chars = write b.chars b.head ch; head = next_index b.head } in
      let same : put_char_in_buffer ch b ≡ (pos 0, b') = rw (room, put_char_in_buffer) in
      let more : size b' ≡ suc (size b) = ground arith in
      let at : b.head ≡ (b.tail + size b) % num_of_chars = ground arith in
      let longer : contents b' ≡ contents b ++ ch ∷ [] =
        ap (λ (n : ℕ). window b'.chars b.tail n) more
        ∙ window-write b.chars ch (size b) b.tail b.head v.tail_in (omega arith) at in
      let few : size b ≢ num_of_chars - 1 = ground arith in
      subst (λ (r : ℤ × Buffer). (r.0, contents r.1) ≡ push ch (contents b)) (sym same)
        (ground (arith, length-contents b, few, longer))
]

-- `getCharFromBuffer` takes the oldest character out, or returns -1 and changes nothing.
pub get_refines :
    (b : Buffer)
    → IsBuffer b
    → let (c, b') = get_char_from_buffer b in (c, contents b') ≡ pop (contents b)
unfolding get_char_from_buffer
get_refines b v = elim (Bool-cases (b.head == b.tail)) [
  | inl empty ↦
      let same : get_char_from_buffer b ≡ (255, b) = rw (empty, get_char_from_buffer) in
      let none_in : size b ≡ 0 = ground arith in
      let e : contents b ≡ [] = ap (λ (n : ℕ). window b.chars b.tail n) none_in in
      subst (λ (r : ℕ × Buffer). (r.0, contents r.1) ≡ pop (contents b)) (sym same)
        (ground (arith, e))
  | inr filled ↦
      let b' : Buffer = record b { tail = next_index b.tail } in
      let same : get_char_from_buffer b ≡ (b.chars b.tail, b') =
        rw (filled, get_char_from_buffer) in
      subst (λ (r : ℕ × Buffer). (r.0, contents r.1) ≡ pop (contents b)) (sym same)
        (ground (arith, contents-cons b v (ground arith)))
]

-- How many of the terminal's answers are that it is ready.
unfoldable pub yes_count : List Bool → ℕ
yes_count [] = 0
yes_count (now ∷ later) = if now then suc (yes_count later) else yes_count later

Printed : List Bool → Buffer → Type 0
Printed answers b =
    (b' : Buffer) × (print_all answers b ≡ some (contents b, b')) × (contents b' ≡ [])

print_nothing :
    (answers : List Bool) (b : Buffer) → IsBuffer b → (b.head == b.tail) ≡ true → Printed answers b
unfolding Printed print_all
print_nothing [] b v e =
    let none_in = contents-nil b v (ground arith) in (b, ground (arith, none_in), none_in)
print_nothing (now ∷ later) b v e =
    let none_in = contents-nil b v (ground arith) in (b, ground (arith, none_in), none_in)

print_all-Printed :
    (answers : List Bool) (b : Buffer)
    → IsBuffer b
    → length (contents b) ≤ yes_count answers
    → Printed answers b
unfolding Printed print_all yes_count print_one
print_all-Printed [] b v h = elim (Bool-cases (b.head == b.tail)) [
  | inl e ↦ print_nothing [] b v e
  | inr ne ↦ absurd (ground (arith, ap length (contents-cons b v (ground arith))))
]
print_all-Printed (now ∷ later) b v h = elim (Bool-cases (b.head == b.tail)) [
  | inl e ↦ print_nothing (now ∷ later) b v e
  | inr ne ↦
      let b₁ : Buffer = record b { tail = next_index b.tail } in
      let v₁ : IsBuffer b₁ = omega arith in
      let split = contents-cons b v (ground arith) in
      elim (Bool-cases now) [
        | inl yes_now ↦
            let (b', ran, none_in) =
              print_all-Printed later b₁ v₁ (ground (arith, ap length split)) in
            (b', ground (arith, ran, split), none_in)
        | inr not_now ↦
            let (b', ran, none_in) = print_all-Printed later b v (ground arith) in
            (b', ground (arith, ran), none_in)
      ]
]

-- `empty_console_print_all`, where the terminal answers often enough that it is ready, ends; it sends
-- the characters of the buffer, each once and in their order, and leaves the buffer empty.
pub print_all-contents :
    (answers : List Bool) (b : Buffer)
    → IsBuffer b
    → length (contents b) ≤ yes_count answers
    → (b' : Buffer) × (print_all answers b ≡ some (contents b, b')) × (contents b' ≡ [])
unfolding Printed
print_all-contents answers b v h = print_all-Printed answers b v h

-- The fault of the receiving loop: with the tail at 0 and 1023 characters in the buffer its test still
-- passes, and the next character makes the whole buffer look empty.
pub receive_one-loses :
    (ch : ℕ) (b : Buffer)
    → b.head ≡ num_of_chars - 1
    → b.tail ≡ 0
    → (may_receive b ≡ true)
      × (length (contents b) ≡ num_of_chars - 1)
      × (contents (receive_one ch b) ≡ [])
unfolding may_receive receive_one
receive_one-loses ch b h t = (
  ground arith,
  length-contents b ∙ omega arith,
  ap (λ (n : ℕ). window (write b.chars b.head ch) b.tail n) none_in,
)
  where
    none_in : size (record b { head = next_index b.head }) ≡ 0
    none_in = omega arith

-- A received character joins the end of the queue of a buffer with fewer than 1023 characters.
pub receive_one-push :
    (ch : ℕ) (b : Buffer)
    → IsBuffer b
    → length (contents b) < num_of_chars - 1
    → contents (receive_one ch b) ≡ contents b ++ ch ∷ []
unfolding receive_one
receive_one-push ch b v h =
    let more : size (record b { head = next_index b.head }) ≡ suc (size b) =
      ground (arith, length-contents b) in
    ap (λ (n : ℕ). window (write b.chars b.head ch) b.tail n) more
    ∙ window-write b.chars ch (size b) b.tail b.head v.tail_in (omega arith) (ground arith)
