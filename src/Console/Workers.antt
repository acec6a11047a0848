-- ===== src/Console/Workers.antt =====
-- The threads of src/_console.cpp that move characters between the buffers and the terminal, one round of their
-- endless loops at a time.
use oskernel_riscv.Base.{
  ℕ, ◌≡◌, refl, ap, Bool, false, not, ◌&&◌, Option, none, some, List, [], ◌∷◌, arith, if◌then◌else◌,
  ◌>>=◌, ◌++◌, ◌≤◌, leb, true, Bool-cases, inl, inr,
}
use oskernel_riscv.Base.Int.{ℤ}
use oskernel_riscv.Printing.Priority.{ready_times}
use oskernel_riscv.Console.Terminal.{get_char_from_terminal, get_char_from_terminal_echoes}
use oskernel_riscv.Console.{Buffer, put_chars, may_receive, receive_one}
use oskernel_riscv.State.{Kernel, yielded}
use oskernel_riscv.Semaphore.{Reply, returns, signal, reschedule}
use oskernel_riscv.Placement.Events.{Sound}
use oskernel_riscv.Placement.Objects.{signal-Ends}

-- What the terminal answers in one pass of the loop that receives: whether a character is ready, which, and the
-- statuses that `getCharFromTerminal` polls until it may send the character back.
abbrev pub Answer : Type 0
Answer = Bool × ℕ × List Bool

-- The inner loop of `character_getter_thread`: the character goes into the buffer, and
-- `characterReadyToGet` is signalled. The characters sent back come first in the result; there is none when
-- the answers end before the loop does.
unfoldable pub receive_all :
    List Answer → Bool → ℕ → Buffer → Kernel → Option (List ℕ × Buffer × Kernel)
receive_all [] interrupt s b k = none
receive_all ((now, ch, polls) ∷ later) interrupt s b k =
    let more : Option (List ℕ × Buffer × Kernel) = (do
      (got, echo, _) ← get_char_from_terminal ch polls
      (_, k₁) ← signal s k
      (echoes, b', k') ← receive_all later interrupt s (receive_one got b) k₁
      some (echo ++ echoes, b', k')) in
    if now && interrupt && may_receive b then more else some ([], b, k)

-- `consoleInterrupt` behind the loops: it is cleared once the terminal has nothing to give or take.
abbrev pub finish_interrupt : Bool → Bool → Bool → Bool
finish_interrupt receives transfers interrupt =
    if not receives && not transfers && interrupt then false else interrupt

-- One round of `character_getter_thread`, up to where the next thread goes on.
unfoldable pub getter_round :
    List Answer
    → Bool
    → Bool
    → Bool
    → ℕ
    → Buffer
    → Kernel
    → Option (List ℕ × Buffer × Bool × (Reply × Kernel))
unfolding receive_all
getter_round answers receives transfers interrupt s b k = do
  (sent, b', k') ← receive_all answers interrupt s b k
  q ← reschedule yielded k'
  some (sent, b', finish_interrupt receives transfers interrupt, q)

-- One round of `character_putter_thread`: the characters sent, and what is left.
unfoldable pub putter_round :
    List Bool
    → Bool
    → Bool
    → Bool
    → Buffer
    → Kernel
    → Option (List ℕ × Buffer × Bool × (Reply × Kernel))
putter_round answers receives transfers interrupt b k =
    let (sent, b') = put_chars answers b in
    reschedule yielded k >>= λ q. some (sent, b', finish_interrupt receives transfers interrupt, q)

abbrev replied : ℤ × Kernel → Option (Reply × Kernel)
replied (z, k) = some (returns z, k)

signalled :
    (o : Option (ℤ × Kernel)) (r : Reply) (k' : Kernel)
    → (o >>= replied) ≡ some (r, k')
    → (z : ℤ) × (o ≡ some (z, k'))
signalled none r k' e = absurd (ground (arith, e))
signalled (some (z, j)) r k' e =
    let same : j ≡ k' = ground (arith, e) in (z, ap (λ (x : Kernel). some (z, x)) same)

-- At some pass the terminal has no character, and up to there it becomes ready to send after each one.
abbrev pub Pauses : List Answer → Type 0
Pauses [] = ⊥
Pauses ((false, _, _) ∷ later) = Unit {0}
Pauses ((true, _, polls) ∷ later) = (1 ≤ ready_times polls) × Pauses later

-- The characters that come before the terminal has none, as far as they are taken and printable.
abbrev pub echoes_of : Bool → List Answer → Buffer → List ℕ
echoes_of interrupt [] b = []
echoes_of interrupt ((now, ch, _) ∷ later) b =
    let rest = echoes_of interrupt later (receive_one ch b) in
    if now && interrupt && may_receive b
    then (if leb 33 ch && leb ch 126 then ch ∷ [] else []) ++ rest
    else []

-- The buffer behind the characters that are taken.
abbrev pub filled : Bool → List Answer → Buffer → Buffer
filled interrupt [] b = b
filled interrupt ((now, ch, _) ∷ later) b =
    let rest = filled interrupt later (receive_one ch b) in
    if now && interrupt && may_receive b then rest else b

pub receive_all-Sound :
    (i s : ℕ) (answers : List Answer) (interrupt : Bool) (b : Buffer) (k : Kernel)
    → Sound i k
    → Pauses answers
    → (k' : Kernel) × (receive_all answers interrupt s b k
        ≡ some (echoes_of interrupt answers b, filled interrupt answers b, k'))
      × Sound i k'
unfolding receive_all
receive_all-Sound i s [] interrupt b k is stops = absurd stops
receive_all-Sound i s ((false, ch, polls) ∷ later) interrupt b k is stops = (k, refl, is)
receive_all-Sound i s ((true, ch, polls) ∷ later) interrupt b k is (ready, stops) =
    let (r, k₁, e, is₁) = signal-Ends i k is s in
    let (z, ran) = signalled (signal s k) r k₁ e in
    let (rest, echo) = get_char_from_terminal_echoes ch polls ready in
    let (k₂, e₂, is₂) = receive_all-Sound i s later interrupt (receive_one ch b) k₁ is₁ stops in
    elim (Bool-cases (interrupt && may_receive b)) [
      | inl goes ↦ (k₂, rw (goes, echo, ran, e₂) refl, is₂)
      | inr ends ↦ (k, rw ends refl, is)
    ]
