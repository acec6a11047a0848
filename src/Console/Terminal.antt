-- ===== src/Console/Terminal.antt =====
-- h/_console.hpp: `receiveReady`, `transferReady` and `getCharFromTerminal`. The status byte and the received character
-- come from the terminal.
use oskernel_riscv.Base.{
  ℕ, ◌≤◌, ◌≡◌, refl, Bool, true, false, ◌&&◌, Option, none, some, List, [], ◌∷◌, arith, leb,
  if◌then◌else◌, ◌>>=◌, Bool-cases, inl, inr,
}
use oskernel_riscv.Registers.Control.{bit}
use oskernel_riscv.Printing.Priority.{ready_times}

-- `CONSOLE_STATUS_RECEIVE` and `CONSOLE_STATUS_TRANSFER` are the bits 0 and 5.
abbrev pub receive_ready : ℕ → Bool
receive_ready status = bit 0 status

abbrev pub transfer_ready : ℕ → Bool
transfer_ready status = bit 5 status

-- `while (!transferReady());` on the terminal's answers, those that are left behind
abbrev pub await_transfer : List Bool → Option (List Bool)
await_transfer [] = none
await_transfer (now ∷ later) = let rest = await_transfer later in if now then some later else rest

-- `getCharFromTerminal`: the character, what is sent back for the user to see, and the answers that are left.
unfoldable pub get_char_from_terminal : ℕ → List Bool → Option (ℕ × List ℕ × List Bool)
get_char_from_terminal ch answers =
    let echoed : Option (ℕ × List ℕ × List Bool) = (do
      rest ← await_transfer answers
      some (ch, ch ∷ [], rest)) in
    if leb 33 ch && leb ch 126 then echoed else some (ch, [], answers)

await_transfer-total :
    (answers : List Bool)
    → 1 ≤ ready_times answers
    → (rest : List Bool) × (await_transfer answers ≡ some rest)
await_transfer-total [] le = absurd (omega (arith, le))
await_transfer-total (true ∷ later) le = (later, refl)
await_transfer-total (false ∷ later) le = await_transfer-total later le

-- With a terminal that is ready at some time `getCharFromTerminal` ends, gives the received character and sends it
-- back exactly if it is printable.
pub get_char_from_terminal_echoes :
    (ch : ℕ) (answers : List Bool)
    → 1 ≤ ready_times answers
    → (rest : List Bool) × (get_char_from_terminal ch answers
        ≡ some (ch, (if leb 33 ch && leb ch 126 then ch ∷ [] else []), rest))
unfolding get_char_from_terminal
get_char_from_terminal_echoes ch answers le = elim (Bool-cases (leb 33 ch && leb ch 126)) [
  | inl printable ↦
      let (rest, e) = await_transfer-total answers le in (rest, rw (printable, e) refl)
  | inr other ↦ (answers, rw other refl)
]
