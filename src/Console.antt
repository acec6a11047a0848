-- ===== src/Console.antt =====
-- h/_console.hpp and src/_console.cpp: the two character buffers and the threads that move characters
-- between them and the terminal. The terminal's registers are an interface of the model.
pub mod Fifo
pub mod Terminal
pub mod Workers
use oskernel_riscv.Base.{
  ℕ, zero, suc, ◌+◌, ◌-◌, ◌%◌, ◌^◌, Bool, true, false, not, ◌&&◌, ◌||◌, Option, none, some, List,
  [], ◌∷◌, ◌++◌, ◌==◌, leb, if◌then◌else◌, ◌>>=◌,
}
use oskernel_riscv.Base.Int.{ℤ, pos, negsuc}

abbrev pub num_of_chars : ℕ
num_of_chars = 1024

-- One circular buffer: `bufferPrint` with `headPrint` and `tailPrint`, or `bufferGet` with `headGet` and
-- `tailGet`. A slot that was never written holds any value.
pub record Buffer : Type 0 where
  pub chars : ℕ → ℕ
  pub head : ℕ
  pub tail : ℕ

-- `init` sets both indices of each buffer to 0.
abbrev pub reset : Buffer → Buffer
reset b = record b { head = 0; tail = 0 }

abbrev pub write : (ℕ → ℕ) → ℕ → ℕ → ℕ → ℕ
write f i c j = if j == i then c else f j

abbrev pub next_index : ℕ → ℕ
next_index i = (i + 1) % num_of_chars

-- `putCharInBuffer`
unfoldable pub put_char_in_buffer : ℕ → Buffer → ℤ × Buffer
put_char_in_buffer ch b =
    if next_index b.head == b.tail
    then (negsuc 0, b)
    else (pos 0, record b { chars = write b.chars b.head ch; head = next_index b.head })

-- `getCharFromBuffer` behind its wait on `characterReadyToGet`: -1 (255 as a `char`) if there is none.
unfoldable pub get_char_from_buffer : Buffer → ℕ × Buffer
get_char_from_buffer b =
    if b.head == b.tail then (255, b) else (b.chars b.tail, record b { tail = next_index b.tail })

-- `isThereAnythingToPrint`
abbrev pub is_there_anything_to_print : Buffer → Bool
is_there_anything_to_print b = not (b.head == b.tail)

-- One round of the printing loops: the character at the tail goes to the terminal.
unfoldable pub print_one : Buffer → ℕ × Buffer
print_one b = (b.chars b.tail, record b { tail = next_index b.tail })

-- `empty_console_print_all`: the loop ends when nothing is left to print. The list holds the terminal's
-- answers to `transferReady`, one for each round; the result has the characters sent, and `none` means
-- that the answers ran out first.
unfoldable pub print_all : List Bool → Buffer → Option (List ℕ × Buffer)
print_all [] b = if b.head == b.tail then some ([], b) else none
print_all (now ∷ later) b =
    let quiet = print_all later b in
    let (ch, b₁) = print_one b in
    let sent = print_all later b₁ >>= λ r. some (ch ∷ r.0, r.1) in
    if b.head == b.tail then some ([], b) else if now then sent else quiet

-- The inner loop of `character_putter_thread`: while the terminal is ready and there is something to
-- print. It stops at the first answer that is no.
unfoldable pub put_chars : List Bool → Buffer → List ℕ × Buffer
put_chars [] b = ([], b)
put_chars (now ∷ later) b =
    let (ch, b₁) = print_one b in
    let rest = put_chars later b₁ in
    if now && not (b.head == b.tail) then (ch ∷ rest.0, rest.1) else ([], b)

-- One round of the loop of `character_getter_thread` that stores a received character. The loop's test
-- compares `headGet + 1` with `tailGet` before the index is reduced.
unfoldable pub may_receive : Buffer → Bool
may_receive b = not (b.head + 1 == b.tail)

unfoldable pub receive_one : ℕ → Buffer → Buffer
receive_one ch b = record b { chars = write b.chars b.head ch; head = next_index b.head }

-- The echo of `getCharFromTerminal`.
abbrev pub is_echoed : ℕ → Bool
is_echoed ch = leb 33 ch && leb ch 126
