-- ===== src/Tests/Buffers.antt =====
-- Console buffers of three characters that go round the end, and of 1023.
use oskernel_riscv.Base.{◌-◌, ◌≡◌, refl, false, true, some, [], ◌∷◌, arith, length}
use oskernel_riscv.Console.{
  num_of_chars, Buffer, put_char_in_buffer, get_char_from_buffer, print_all, may_receive,
  receive_one,
}
use oskernel_riscv.Console.Fifo.{
  IsBuffer, contents, push, pop, put_refines, get_refines, print_all-contents, receive_one-loses,
  yes_count,
}

abbrev pub three : Buffer
three = record { chars = λ i. i; head = 1; tail = 1022 }

pub three-IsBuffer : IsBuffer three
three-IsBuffer = record { head_in = omega arith; tail_in = omega arith }

abbrev full : Buffer
full = record { chars = λ i. i; head = 1023; tail = 0 }

put_refines_example :
    let (r, b') = put_char_in_buffer 65 three in (r, contents b') ≡ push 65 (1022 ∷ 1023 ∷ 0 ∷ [])
put_refines_example = put_refines 65 three three-IsBuffer

get_refines_example :
    let (c, b') = get_char_from_buffer three in (c, contents b') ≡ pop (1022 ∷ 1023 ∷ 0 ∷ [])
get_refines_example = get_refines three three-IsBuffer

print_all-contents_example :
    (b' : Buffer) × (print_all (true ∷ false ∷ true ∷ true ∷ []) three
      ≡ some (1022 ∷ 1023 ∷ 0 ∷ [], b'))
    × (contents b' ≡ [])
unfolding yes_count
print_all-contents_example =
    print_all-contents (true ∷ false ∷ true ∷ true ∷ []) three three-IsBuffer (omega arith)

receive_one-loses_example :
    (may_receive full ≡ true)
    × (length (contents full) ≡ num_of_chars - 1)
    × (contents (receive_one 65 full) ≡ [])
receive_one-loses_example = receive_one-loses 65 full refl refl
