-- ===== src/Printing/Lines.antt =====
-- test/printing.cpp: `getString`, which reads a line into a buffer of `max` characters.
use oskernel_riscv.Base.{
  subst, ℕ, zero, suc, ◌+◌, ◌≤◌, ◌<◌, ◌≡◌, refl, sym, ◌∙◌, inl, inr, false, not, ◌||◌, Option, none,
  some, List, [], ◌∷◌, arith, ◌==◌, ltb, if◌then◌else◌, ◌>>=◌, length, Bool-cases,
}
use oskernel_riscv.State.{update}

-- The loop, on the characters that `getc` gives, with the index behind the last character that was stored.
-- `none` means that the characters ran out while it waited for one.
pub get_line : ℕ → ℕ → (ℕ → ℕ) → List ℕ → Option (ℕ × (ℕ → ℕ) × List ℕ)
get_line max i buf [] = if ltb (i + 1) max then none else some (i, buf, [])
get_line max i buf (c ∷ cs) =
    let rest = get_line max (suc i) (update buf i c) cs in
    if not (ltb (i + 1) max)
    then some (i, buf, c ∷ cs)
    else if c == 0
    then some (i, buf, cs)
    else if (c == 10) || (c == 13)
    then some (suc i, update buf i c, cs)
    else rest

unfoldable pub get_string : ℕ → (ℕ → ℕ) → List ℕ → Option ((ℕ → ℕ) × List ℕ)
unfolding get_line
get_string max buf input = do r ← get_line max 0 buf input; some (update r.1 r.0 0, r.2)

-- The character with a number
abbrev pub char_at : List ℕ → ℕ → ℕ
char_at [] j = 0
char_at (c ∷ cs) zero = c
char_at (c ∷ cs) (suc j) = char_at cs j

-- The characters of the input are stored from `i` up to `stop`, and nothing else changes.
record Line (max i : ℕ) (buf : ℕ → ℕ) (input : List ℕ) (r : Option (ℕ × (ℕ → ℕ) × List ℕ))
    : Type 0 where
  stop : ℕ
  stored : ℕ → ℕ
  left : List ℕ
  ran : r ≡ some (stop, stored, left)
  not_before : i ≤ stop
  in_bounds : stop < max
  holds : (j : ℕ) → i + j < stop → stored (i + j) ≡ char_at input j
  below : (j : ℕ) → j < i → stored j ≡ buf j
  above : (j : ℕ) → stop ≤ j → stored j ≡ buf j

stops_here :
    (max i : ℕ) (buf : ℕ → ℕ) (input left : List ℕ)
    → i < max
    → Line max i buf input (some (i, buf, left))
stops_here max i buf input left lt = record {
  stop = i;
  stored = buf;
  left = left;
  ran = refl;
  not_before = omega arith;
  in_bounds = lt;
  holds = λ j lt'. absurd (omega (arith, lt'));
  below = λ j lt'. refl;
  above = λ j le. refl;
}

goes_on :
    (max i : ℕ) (buf : ℕ → ℕ) (c : ℕ) (cs : List ℕ) (r : Option (ℕ × (ℕ → ℕ) × List ℕ))
    → Line max (suc i) (update buf i c) cs r
    → Line max i buf (c ∷ cs) r
goes_on max i buf c cs r rest = record {
  stop = rest.stop;
  stored = rest.stored;
  left = rest.left;
  ran = rest.ran;
  not_before = omega (arith, rest.not_before);
  in_bounds = rest.in_bounds;
  holds = at;
  below = λ j lt. rest.below j (omega (arith, lt)) ∙ ground (arith, lt);
  above = λ j le. rest.above j le ∙ ground (arith, le, rest.not_before);
}
  where
    at : (j : ℕ) → i + j < rest.stop → rest.stored (i + j) ≡ char_at (c ∷ cs) j
    at zero lt =
        let here : i + 0 ≡ i = omega arith in
        subst (λ k. rest.stored k ≡ c) (sym here) (rest.below i (omega arith) ∙ ground arith)
    at (suc j) lt =
        let here : i + suc j ≡ suc i + j = omega arith in
        subst (λ k. rest.stored k ≡ char_at cs j) (sym here) (rest.holds j (omega (arith, lt)))

get_line-Line :
    (max i : ℕ) (buf : ℕ → ℕ) (input : List ℕ)
    → i < max
    → max ≤ i + 1 + length input
    → Line max i buf input (get_line max i buf input)
unfolding get_line
get_line-Line max i buf [] lt enough =
    let full : ltb (i + 1) max ≡ false = ground (arith, enough) in
    rw full (stops_here max i buf [] [] lt)
get_line-Line max i buf (c ∷ cs) lt enough = elim (Bool-cases (ltb (i + 1) max)) [
  | inr full ↦ rw full (stops_here max i buf (c ∷ cs) (c ∷ cs) lt)
  | inl room ↦ elim (Bool-cases (c == 0)) [
    | inl null ↦ rw (room, null) (stops_here max i buf (c ∷ cs) cs lt)
    | inr real ↦ elim (Bool-cases ((c == 10) || (c == 13))) [
      | inl ends ↦
          rw (room, real, ends)
            (goes_on max i buf c cs (some (suc i, update buf i c, cs))
              (stops_here max (suc i) (update buf i c) cs cs (ground (arith, room))))
      | inr more ↦
          rw (room, real, more)
            (goes_on max i buf c cs (get_line max (suc i) (update buf i c) cs) (
              get_line-Line max (suc i) (update buf i c) cs (ground (arith, room))
                (omega (arith, enough))))
    ]
  ]
]

-- `getString` with room for a character, where the input has `max - 1` characters at least, ends: the buffer then
-- holds characters of the input from its beginning, fewer than `max`, and a null behind them, and no place behind
-- that null is written to, in the buffer or beyond it.
pub get_string_bounds :
    (max : ℕ) (buf : ℕ → ℕ) (input : List ℕ)
    → 1 ≤ max
    → max ≤ 1 + length input
    → (n : ℕ) × (after : ℕ → ℕ) × (left : List ℕ) × (get_string max buf input ≡ some (after, left))
      × (n < max)
      × (after n ≡ 0)
      × ((j : ℕ) → j < n → after j ≡ char_at input j)
      × ((j : ℕ) → n < j → after j ≡ buf j)
unfolding get_string
get_string_bounds max buf input room enough =
    let line = get_line-Line max 0 buf input room enough in
    (
      line.stop,
      update line.stored line.stop 0,
      line.left,
      rw line.ran refl,
      line.in_bounds,
      ground arith,
      (λ j lt. ground (arith, lt, line.holds j (omega (arith, lt)))),
      (λ j lt. ground (arith, lt, line.above j (omega (arith, lt)))),
    )
