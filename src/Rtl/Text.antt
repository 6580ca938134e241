-- ===== src/Rtl/Text.antt =====
-- Strings in byte memory, seen as lists of characters.
use arcos_os.Prelude.{ℕ, suc, ◌≡◌, ◌≢◌, List, [], ◌∷◌}
use arcos_os.Types.{Ptr}
use arcos_os.Rtl.Memory.{Bytes}

-- A string in memory, with its terminator.
abbrev pub Text : Bytes → Ptr → List ℕ → Type 0
Text m p [] = m p ≡ 0
Text m p (c ∷ cs) = (m p ≡ c) × Text m (suc p) cs

-- No character is the terminator.
abbrev pub IsString : List ℕ → Type 0
IsString [] = Unit {0}
IsString (c ∷ cs) = (c ≢ 0) × IsString cs
