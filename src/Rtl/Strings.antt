-- ===== src/Rtl/Strings.antt =====
-- base/rtl/string.c: strings in byte memory. A loop runs for `fuel` rounds, `none` if it needs more.
use arcos_os.Prelude.{
  ℕ, zero, suc, ◌+◌, ◌*◌, ◌-◌, ◌%◌, Bool, not, ◌||◌, Option, none, some, ◌==◌, ltb, if◌then◌else◌,
  update,
}
use arcos_os.Types.{Ptr, ulong_mod}
use arcos_os.Rtl.Memory.{Bytes}

-- A CHAR, read as a signed byte, in 32 bits.
abbrev pub sign_extend : ℕ → ℕ
sign_extend c = if ltb c 128 then c else c + ulong_mod - 256

-- RtlCopyString, with the memory it leaves.
unfoldable pub copy_string : ℕ → Ptr → Ptr → Bytes → Option Bytes
copy_string zero dest src m = none
copy_string (suc fuel) dest src m =
    let m' = update m dest (m src) in
    let rest = copy_string fuel (suc dest) (suc src) m' in if m src == 0 then some m' else rest

-- The sign of the result of RtlCompareStrings.
pub data Comparison : Type 0 where
  below same above : Comparison

-- The sign of `a - b` for two unsigned bytes.
abbrev pub compare_bytes : ℕ → ℕ → Comparison
compare_bytes a b = if a == b then same else if ltb a b then below else above

unfoldable pub compare_strings : ℕ → Bytes → Ptr → Ptr → Option Comparison
compare_strings zero m src dest = none
compare_strings (suc fuel) m src dest =
    let rest = compare_strings fuel m (suc src) (suc dest) in
    if m dest == 0
    then some same
    else if m src == m dest
    then rest
    else some (compare_bytes (m src) (m dest))

unfoldable pub string_length : ℕ → Bytes → Ptr → Option ℕ
string_length zero m str = none
string_length (suc fuel) m str =
    let rest = string_length fuel m (suc str) in
    if m str == 0 then some 0 else elim rest [ none ↦ none | some n ↦ some (suc n) ]

unfoldable pub skip_spaces : ℕ → Bytes → Ptr → Option Ptr
skip_spaces zero m str = none
skip_spaces (suc fuel) m str =
    let rest = skip_spaces fuel m (suc str) in if m str == 32 then rest else some str

-- The second loop of RtlAtoUL.
unfoldable pub read_digits : ℕ → Bytes → Ptr → ℕ → Option ℕ
read_digits zero m str result = none
read_digits (suc fuel) m str result =
    let next = (result * 10 + (sign_extend (m str) + ulong_mod - 48)) % ulong_mod in
    let rest = read_digits fuel m (suc str) next in if m str == 0 then some result else rest

unfoldable pub ato_ul : ℕ → Bytes → Ptr → Option ℕ
ato_ul fuel m str = elim (skip_spaces fuel m str) [
  | none ↦ none
  | some digits ↦ read_digits fuel m digits 0
]

-- Rtlappisdigit: a negative CHAR is a byte above '9', and is no digit either way.
unfoldable pub app_is_digit : ℕ → Bool
app_is_digit c = not (ltb c 48 || ltb 57 c)
