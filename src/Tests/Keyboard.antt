-- ===== src/Tests/Keyboard.antt =====
-- The theorems on the keyboard buffer at one with the characters 'a' and 'b'.
use arcos_os.Prelude.{refl, ◌≡◌, ◌∷◌, [], ◌==◌, if◌then◌else◌, arith}
use arcos_os.Io.Fifo.{
  Fifo, Contains, add_char_to_buffer, get_first_char_from_buffer, add_char_to_buffer-Contains,
  get_first_char_from_buffer-Contains,
}

abbrev typed : Fifo
typed = record { buffer = λ i. if i == 0 then 97 else if i == 1 then 98 else 0; count = 2 }

typed-Contains : Contains typed (97 ∷ 98 ∷ [])
typed-Contains = (refl, (refl, (refl, λ j le. ground arith)))

add_char_to_buffer-Contains_example : Contains (add_char_to_buffer 99 typed) (97 ∷ 98 ∷ 99 ∷ [])
add_char_to_buffer-Contains_example =
    add_char_to_buffer-Contains typed (97 ∷ 98 ∷ []) 99 typed-Contains

get_first_char_from_buffer-Contains_example :
    ((get_first_char_from_buffer typed).0 ≡ 97)
    × Contains (get_first_char_from_buffer typed).1 (98 ∷ [])
get_first_char_from_buffer-Contains_example =
    get_first_char_from_buffer-Contains typed (97 ∷ 98 ∷ []) typed-Contains
