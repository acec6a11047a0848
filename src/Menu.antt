-- ===== src/Menu.antt =====
-- test/userMain.cpp and the questions of test/printing.cpp: which test programs run, by the characters that `getc`
-- gives. The outer `none` means that the characters ran out, and a `none` inside is the code's -1.
pub mod Laws
use oskernel_riscv.Base.{
  ℕ, zero, suc, ◌+◌, ◌-◌, Bool, Option, none, some, List, [], ◌∷◌, ◌==◌, leb, ltb, not, ◌&&◌, ◌||◌,
  if◌then◌else◌, ◌>>=◌,
}

-- `getc() - '0'`, and the character behind it
abbrev pub read_digit : List ℕ → Option (ℕ × ℕ × List ℕ)
read_digit (c ∷ next ∷ rest) = some (c, next, rest)
read_digit _ = none

-- The digit, if it is one from `low` to `high`
abbrev pub in_range : ℕ → ℕ → ℕ → Option ℕ
in_range low high c = if leb (48 + low) c && leb c (48 + high) then some (c - 48) else none

unfoldable pub choose_language : List ℕ → Option (Option ℕ × List ℕ)
choose_language input = do r ← read_digit input; some (in_range 0 1 r.0, r.2)

abbrev pub num_of_std_tests : ℕ
num_of_std_tests = 7

abbrev pub num_of_std_questions : ℕ
num_of_std_questions = 1

abbrev pub num_of_modifications : ℕ
num_of_modifications = 0

unfoldable pub choose_test_or_modification : List ℕ → Option (Option ℕ × List ℕ)
choose_test_or_modification input = do
  r ← read_digit input
  some (in_range 1 (num_of_std_tests + num_of_std_questions) r.0, r.2)

unfoldable pub choose_from_modifications : List ℕ → Option (Option ℕ × List ℕ)
choose_from_modifications input = do
  r ← read_digit input
  some (in_range 1 (num_of_std_tests + num_of_std_questions + num_of_modifications) r.0, r.2)

-- `static int inEnglish = chooseLanguage();`: asked for at the first call only.
abbrev pub language_of : Option (Option ℕ) → List ℕ → Option (Option ℕ × List ℕ)
language_of none input = choose_language input
language_of (some language) input = some (language, input)

-- The second question, if the answer to the first one was for it
abbrev pub choose_on : Option ℕ × List ℕ → Option (Option ℕ × List ℕ)
choose_on (none, rest) = some (none, rest)
choose_on (some test, rest) =
    if test == num_of_std_questions + num_of_std_tests
    then choose_from_modifications rest
    else some (some test, rest)

-- `getTestID_printTestInfo`: the test, the language that is kept, and the characters that are left
abbrev pub ask_on : Option ℕ × List ℕ → Option (Option ℕ × Option ℕ × List ℕ)
ask_on (none, rest) = some (none, none, rest)
ask_on (some english, rest) = do
  r ← choose_test_or_modification rest
  s ← choose_on r
  some (s.0, some english, s.1)

unfoldable pub get_test_id : Option (Option ℕ) → List ℕ → Option (Option ℕ × Option ℕ × List ℕ)
get_test_id kept input = do r ← language_of kept input; ask_on r

-- `runOneTest`: the test program that runs. With all levels implemented only the numbers 1 to 7 have one.
abbrev pub program : Option ℕ → Option ℕ
program none = none
program (some test) = if leb 1 test && leb test 7 then some test else none

-- The loop of `userMain`
unfoldable pub run_tests : ℕ → Option (Option ℕ) → List ℕ → Option (List (Option ℕ) × List ℕ)
unfolding get_test_id
run_tests zero kept input = some ([], input)
run_tests (suc n) kept input = do
  r ← get_test_id kept input
  s ← run_tests n (some r.1) r.2
  some (program r.0 ∷ s.0, s.1)

-- `userMain`: the programs that it runs, one entry for each round; a number of tests below 0 makes no round.
unfoldable pub user_main : List ℕ → Option (List (Option ℕ) × List ℕ)
unfolding run_tests
user_main input = do
  r ← read_digit input
  if (not (r.1 == 10) && not (r.1 == 13)) || ltb 57 r.0
      then some ([], r.2)
      else run_tests (r.0 - 48) none r.2
