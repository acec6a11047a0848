-- ===== src/Menu/Laws.antt =====
-- What the menu of the tests lets run.
use oskernel_riscv.Base.{
  ℕ, zero, suc, ◌+◌, ◌-◌, ◌*◌, ◌≤◌, ◌≡◌, inl, inr, refl, Option, none, some, List, [], ◌∷◌, ◌==◌,
  leb, ltb, not, ◌&&◌, ◌||◌, length, arith, Bool-cases,
}
use oskernel_riscv.Menu.{
  choose_language, choose_test_or_modification, choose_from_modifications, language_of, choose_on,
  ask_on, get_test_id, program, run_tests, user_main,
}

-- All entries are a test program from 1 to 7 or none.
abbrev pub Programs : List (Option ℕ) → Type 0
Programs [] = Unit {0}
Programs (none ∷ ps) = Programs ps
Programs (some p ∷ ps) = (1 ≤ p) × (p ≤ 7) × Programs ps

program-Programs :
    (test : Option ℕ) (ps : List (Option ℕ)) → Programs ps → Programs (program test ∷ ps)
program-Programs none ps is = is
program-Programs (some test) ps is = elim (Bool-cases (leb 1 test && leb test 7)) [
  | inl yes_one ↦ rw yes_one (ground (arith, yes_one), ground (arith, yes_one), is)
  | inr other ↦ rw other is
]

-- A question that is answered by two characters
abbrev pub Answered : (List ℕ → Option (Option ℕ × List ℕ)) → ℕ → List ℕ → Type 0
Answered f n input =
    (test : Option ℕ) × (rest : List ℕ) × (f input ≡ some (test, rest))
    × (length input ≤ n + length rest)

language-Answered : (input : List ℕ) → 2 ≤ length input → Answered choose_language 2 input
unfolding choose_language
language-Answered [] enough = absurd (omega (arith, enough))
language-Answered (c ∷ []) enough = absurd (omega (arith, enough))
language-Answered (c ∷ next ∷ rest) enough = (_, rest, refl, omega arith)

test-Answered : (input : List ℕ) → 2 ≤ length input → Answered choose_test_or_modification 2 input
unfolding choose_test_or_modification
test-Answered [] enough = absurd (omega (arith, enough))
test-Answered (c ∷ []) enough = absurd (omega (arith, enough))
test-Answered (c ∷ next ∷ rest) enough = (_, rest, refl, omega arith)

modification-Answered :
    (input : List ℕ) → 2 ≤ length input → Answered choose_from_modifications 2 input
unfolding choose_from_modifications
modification-Answered [] enough = absurd (omega (arith, enough))
modification-Answered (c ∷ []) enough = absurd (omega (arith, enough))
modification-Answered (c ∷ next ∷ rest) enough = (_, rest, refl, omega arith)

kept-Answered :
    (kept : Option (Option ℕ)) (input : List ℕ)
    → 2 ≤ length input
    → Answered (language_of kept) 2 input
kept-Answered none input enough = language-Answered input enough
kept-Answered (some language) input enough = (language, input, refl, omega arith)

on-Answered :
    (test : Option ℕ) (input : List ℕ)
    → 2 ≤ length input
    → Answered (λ rest. choose_on (test, rest)) 2 input
on-Answered none input enough = (none, input, refl, omega arith)
on-Answered (some test) input enough = elim (Bool-cases (test == 8)) [
  | inl more ↦ let (t, rest, e, k) = modification-Answered input enough in (t, rest, rw more e, k)
  | inr done ↦ (some test, input, rw done refl, omega arith)
]

ask-Answered :
    (english : Option ℕ) (input : List ℕ)
    → 4 ≤ length input
    → (test language : Option ℕ) × (rest : List ℕ) × (ask_on (english, input)
        ≡ some (test, language, rest))
      × (length input ≤ 4 + length rest)
ask-Answered none input enough = (none, none, input, refl, omega arith)
ask-Answered (some english) input enough =
    let (t, rest, e, k) = test-Answered input (omega (arith, enough)) in
    let (u, rest', e', k') = on-Answered t rest (omega (arith, enough, k)) in
    (u, some english, rest', rw (e, e') refl, omega (arith, k, k'))

asked :
    (kept : Option (Option ℕ)) (input : List ℕ)
    → 6 ≤ length input
    → (test language : Option ℕ) × (rest : List ℕ) × (get_test_id kept input
        ≡ some (test, language, rest))
      × (length input ≤ 6 + length rest)
unfolding get_test_id
asked kept input enough =
    let (english, rest, e, k) = kept-Answered kept input (omega (arith, enough)) in
    let (t, l, rest', e', k') = ask-Answered english rest (omega (arith, enough, k)) in
    (t, l, rest', rw (e, e') refl, omega (arith, k, k'))

pub run_tests-Programs :
    (n : ℕ) (kept : Option (Option ℕ)) (input : List ℕ)
    → n * 6 ≤ length input
    → (ps : List (Option ℕ)) × (rest : List ℕ) × (run_tests n kept input ≡ some (ps, rest))
      × Programs ps
      × (length ps ≡ n)
unfolding run_tests
run_tests-Programs zero kept input enough = ([], input, refl, tt, refl)
run_tests-Programs (suc n) kept input enough =
    let (t, l, rest, e, k) = asked kept input (omega (arith, enough)) in
    let (ps, rest', e', is, count) =
      run_tests-Programs n (some l) rest (omega (arith, enough, k)) in
    (program t ∷ ps, rest', rw (e, e') refl, program-Programs t ps is, omega (arith, count))

-- `userMain` ends once 56 characters were typed, whatever they are: it makes at most nine rounds, and each runs
-- one of the seven test programs or none.
pub user_main-Programs :
    (input : List ℕ)
    → 56 ≤ length input
    → (ps : List (Option ℕ)) × (rest : List ℕ) × (user_main input ≡ some (ps, rest))
      × Programs ps
      × (length ps ≤ 9)
unfolding user_main
user_main-Programs [] enough = absurd (omega (arith, enough))
user_main-Programs (c ∷ []) enough = absurd (omega (arith, enough))
user_main-Programs (c ∷ next ∷ input) enough =
    elim (Bool-cases ((not (next == 10) && not (next == 13)) || ltb 57 c)) [
      | inl bad ↦ ([], input, rw bad refl, tt, omega arith)
      | inr good ↦
          let (ps, rest, e, is, count) =
            run_tests-Programs (c - 48) none input (ground (arith, good, enough)) in
          (ps, rest, rw (good, e) refl, is, ground (arith, good, count))
    ]

-- Nothing ran.
abbrev pub Skipped : List (Option ℕ) → Type 0
Skipped [] = Unit {0}
Skipped (p ∷ ps) = (p ≡ none) × Skipped ps

-- After an answer for the language that is not one of the two, it is never asked for again: all rounds that are
-- left run nothing and read nothing.
pub run_tests-Skipped :
    (n : ℕ) (input : List ℕ)
    → (ps : List (Option ℕ)) × (run_tests n (some none) input ≡ some (ps, input))
      × (length ps ≡ n)
      × Skipped ps
unfolding run_tests get_test_id
run_tests-Skipped zero input = ([], refl, refl, tt)
run_tests-Skipped (suc n) input =
    let (ps, e, count, is) = run_tests-Skipped n input in
    (none ∷ ps, rw e refl, omega (arith, count), (refl, is))
