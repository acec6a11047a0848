-- ===== src/Printing.antt =====
-- Numbers as text: `printInt` and `stringToInt` of test/printing.cpp, and `priority_print_int` of
-- h/_SModePrinter.hpp. A character is its code.
pub mod Priority
pub mod Lines
use oskernel_riscv.Base.{
  ℕ, zero, suc, ◌+◌, ◌-◌, ◌*◌, ◌/◌, ◌%◌, ◌^◌, ◌<◌, ◌≡◌, ap, ◌∙◌, subst, Bool, true, false, ◌&&◌,
  List, [], ◌∷◌, arith, leb, ltb, ◌==◌, if◌then◌else◌, Bool-cases, inl, inr,
}
use oskernel_riscv.Base.Int.{ℤ, pos, negsuc, is_neg, to_word}

-- `digits[d]`, with the letters of the printer: 65 for "A" in `printInt`, 97 for "a" in the other.
abbrev pub digit : ℕ → ℕ → ℕ
digit letter d = if ltb d 10 then 48 + d else letter + d - 10

-- The loop over `x % base` and `x /= base` fills the buffer, which is printed from its end: each digit
-- comes before those that are there. Fuel 32 suffices for 32 bits.
unfoldable pub digits_onto : ℕ → ℕ → ℕ → ℕ → List ℕ → List ℕ
digits_onto zero letter base x buf = buf
digits_onto (suc n) letter base x buf =
    let rest = digits_onto n letter base (x / base) (digit letter (x % base) ∷ buf) in
    if x / base == 0 then digit letter (x % base) ∷ buf else rest

-- `x = -xx` or `x = xx` as a `uint`
abbrev pub magnitude : ℤ → Bool → ℕ
magnitude (pos n) sgn = n % 2 ^ 32
magnitude (negsuc n) sgn = if sgn then suc n % 2 ^ 32 else (to_word (negsuc n)) % 2 ^ 32

unfoldable pub print_int : ℕ → ℤ → ℕ → Bool → List ℕ
unfolding digits_onto
print_int letter xx base sgn =
    let text = digits_onto 32 letter base (magnitude xx sgn) [] in
    if sgn && is_neg xx then 45 ∷ text else text

-- `stringToInt` with its `n`. A string ends where the list ends, and a number that does not fit into an
-- `int` has no meaning in the source.
abbrev pub string_to_int : ℕ → List ℕ → ℕ
string_to_int n [] = n
string_to_int n (c ∷ cs) =
    let rest = string_to_int (n * 10 + c - 48) cs in if leb 48 c && leb c 57 then rest else n

abbrev power_of_ten : ℕ → ℕ
power_of_ten zero = 1
power_of_ten (suc n) = 10 * power_of_ten n

digit-read :
    (letter x : ℕ) (buf : List ℕ)
    → string_to_int (x / 10) (digit letter (x % 10) ∷ buf) ≡ string_to_int x buf
digit-read letter x buf =
    let e : digit letter (x % 10) ≡ 48 + x % 10 = ground arith in
    let v : x / 10 * 10 + (48 + x % 10) - 48 ≡ x = omega arith in
    let low : leb 48 (48 + x % 10) && leb (48 + x % 10) 57 ≡ true = ground arith in rw (e, low, v)

digits-read :
    (n letter x : ℕ) (buf : List ℕ)
    → x < power_of_ten n
    → string_to_int 0 (digits_onto n letter 10 x buf) ≡ string_to_int x buf
unfolding digits_onto
digits-read zero letter x buf h =
    let e : 0 ≡ x = omega arith in ap (λ (q : ℕ). string_to_int q buf) e
digits-read (suc n) letter x buf h = elim (Bool-cases (x / 10 == 0)) [
  | inl small ↦
      let none_left : x / 10 ≡ 0 = ground arith in
      rw small (
        subst (λ (q : ℕ). string_to_int q (digit letter (x % 10) ∷ buf) ≡ string_to_int x buf)
          none_left (digit-read letter x buf))
  | inr large ↦ rw large (
      digits-read n letter (x / 10) (digit letter (x % 10) ∷ buf) (omega arith)
      ∙ digit-read letter x buf)
]

-- `stringToInt` reads back what `printInt` prints in base ten for a number that is not negative.
pub string_to_int-print_int :
    (letter x : ℕ) (sgn : Bool) → x < 2 ^ 31 → string_to_int 0 (print_int letter (pos x) 10 sgn) ≡ x
unfolding print_int
string_to_int-print_int letter x true h =
    digits-read 32 letter (x % 2 ^ 32) [] (omega arith) ∙ omega arith
string_to_int-print_int letter x false h =
    digits-read 32 letter (x % 2 ^ 32) [] (omega arith) ∙ omega arith
