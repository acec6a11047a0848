-- ===== src/Printing/Priority.antt =====
-- `priority_print` of h/_SModePrinter.hpp: a string in red on the terminal, one character for each time that
-- the terminal is ready. A string ends where the list ends.
use oskernel_riscv.Base.{
  ℕ, suc, ◌+◌, ◌≤◌, ◌≡◌, refl, Bool, true, false, Option, none, some, List, [], ◌∷◌, ◌++◌, arith,
  length, if◌then◌else◌, ◌>>=◌,
}

-- `while (s[i] != '\0') if (transferReady()) { putCharInTerminal(s[i]); i++; }`, given the terminal's answers:
-- what is sent, and the answers that are left. `none` means that the answers ran out first.
unfoldable pub send_all : List Bool → List ℕ → Option (List ℕ × List Bool)
send_all answers [] = some ([], answers)
send_all [] (c ∷ cs) = none
send_all (now ∷ later) (c ∷ cs) =
    let sent = send_all later cs >>= λ r. some (c ∷ r.0, r.1) in
    let again = send_all later (c ∷ cs) in if now then sent else again

-- "\033[31m" and "\033[0m"
abbrev pub red : List ℕ
red = 27 ∷ 91 ∷ 51 ∷ 49 ∷ 109 ∷ []

abbrev pub default_colour : List ℕ
default_colour = 27 ∷ 91 ∷ 48 ∷ 109 ∷ []

unfoldable pub change_terminal_to_red : List Bool → Option (List ℕ × List Bool)
unfolding send_all
change_terminal_to_red answers = send_all answers red

unfoldable pub change_terminal_to_def : List Bool → Option (List ℕ × List Bool)
unfolding send_all
change_terminal_to_def answers = send_all answers default_colour

unfoldable pub priority_print : List Bool → List ℕ → Option (List ℕ × List Bool)
unfolding send_all change_terminal_to_red change_terminal_to_def
priority_print answers s = do
  r₁ ← change_terminal_to_red answers
  r₂ ← send_all r₁.1 s
  r₃ ← change_terminal_to_def r₂.1
  some (r₁.0 ++ r₂.0 ++ r₃.0, r₃.1)

-- How often the terminal is ready.
abbrev pub ready_times : List Bool → ℕ
ready_times [] = 0
ready_times (true ∷ bs) = suc (ready_times bs)
ready_times (false ∷ bs) = ready_times bs

-- A terminal that is ready often enough gets the whole string, one character each time.
pub send_all-total :
    (answers : List Bool) (s : List ℕ)
    → length s ≤ ready_times answers
    → (rest : List Bool) × (send_all answers s ≡ some (s, rest))
      × (ready_times answers ≡ length s + ready_times rest)
unfolding send_all
send_all-total answers [] le = (answers, refl, omega arith)
send_all-total [] (c ∷ cs) le = absurd (omega arith)
send_all-total (true ∷ later) (c ∷ cs) le =
    let (rest, e, k) = send_all-total later cs (omega arith) in (rest, rw e refl, omega arith)
send_all-total (false ∷ later) (c ∷ cs) le = send_all-total later (c ∷ cs) le

-- `priority_print` ends once the terminal was ready for the string and the nine characters of the two colour
-- changes, and what it sent is the string between them.
pub priority_print-total :
    (answers : List Bool) (s : List ℕ)
    → length s + 9 ≤ ready_times answers
    → (rest : List Bool) × (priority_print answers s ≡ some (red ++ s ++ default_colour, rest))
unfolding priority_print change_terminal_to_red change_terminal_to_def
priority_print-total answers s le =
    let (a₁, e₁, k₁) = send_all-total answers red (omega arith) in
    let (a₂, e₂, k₂) = send_all-total a₁ s (omega arith) in
    let (a₃, e₃, k₃) = send_all-total a₂ default_colour (omega arith) in (a₃, rw (e₁, e₂, e₃) refl)
