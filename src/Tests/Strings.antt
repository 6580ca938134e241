-- ===== src/Tests/Strings.antt =====
-- The theorems on strings at concrete ones.
use arcos_os.Prelude.{
  refl, inl, inr, ◌≡◌, some, List, [], ◌∷◌, arith, if◌then◌else◌, ◌==◌, ◌↔◌, ◌++◌, ==→ne, ℕ,
}
use arcos_os.Rtl.Memory.{Bytes}
use arcos_os.Rtl.Strings.{compare_strings, same, ato_ul}
use arcos_os.Rtl.Compare.{compare_strings-prefix}
use arcos_os.Rtl.Format.{format_string}
use arcos_os.Rtl.Format.Bounds.{format_string-bounds}
use arcos_os.Rtl.Format.RoundTrip.{ato_ul-format_string}

-- "%u" at 10, "help" at 20, the empty string at 30.
abbrev bytes : Bytes
bytes a =
    if a == 10
    then 37
    else if a == 11
    then 117
    else if a == 20
    then 104
    else if a == 21
    then 101
    else if a == 22
    then 108
    else if a == 23
    then 112
    else 0

format_string-bounds_example : (format_string 11 (λ _. 4096) bytes 100 4 10).1.bytes 104 ≡ 0
format_string-bounds_example =
    format_string-bounds 11 (λ _. 4096) bytes 100 4 10 104 (omega arith) (inr (omega arith))

ato_ul-format_string_example :
    ato_ul 11 (format_string 11 (λ _. 4096) bytes 100 12 10).1.bytes 100 ≡ some 4096
ato_ul-format_string_example =
    ato_ul-format_string 11 (λ _. 4096) bytes 100 12 10 (refl, (refl, refl)) (inl (omega arith))
      (omega arith) (omega arith) (omega arith)

-- The empty command line counts as "help".
compare_strings-prefix_example :
    (compare_strings 5 bytes 20 30 ≡ some same)
    ↔ ((rest : List ℕ) × ((104 ∷ 101 ∷ 108 ∷ 112 ∷ []) ≡ [] ++ rest))
compare_strings-prefix_example =
    compare_strings-prefix 5 bytes 20 30 (104 ∷ 101 ∷ 108 ∷ 112 ∷ []) []
      (refl, (refl, (refl, (refl, refl)))) refl
      (==→ne 104 0 refl, (==→ne 101 0 refl, (==→ne 108 0 refl, (==→ne 112 0 refl, tt)))) tt
      (omega arith)
