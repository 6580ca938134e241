-- ===== src/Kd/Keys.antt =====
-- base/kd/kdio.c: printed strings, and the keys of a line editor on lists of characters.
use arcos_os.Prelude.{
  ℕ, zero, suc, ◌+◌, ◌-◌, ◌<◌, ◌≡◌, refl, ◌∙◌, sym, ap, subst, ◌||◌, ◌&&◌, List, [], ◌∷◌, ◌++◌,
  length, append_assoc, append-nil, arith, ◌==◌, ltb, if◌then◌else◌, update, update_self, update_ne,
  ne→==,
}
use arcos_os.Prelude.Run.{ok}
use arcos_os.Types.{Ptr}
use arcos_os.Rtl.Memory.{Bytes}
use arcos_os.Rtl.Text.{Text, IsString}
use arcos_os.Kd.Console.{Console, sent, print_char, print_string}
use arcos_os.Kd.Line.{command_buffer_size, is_printable}

-- What the console gets for a string.
abbrev pub all_sent : List ℕ → List ℕ
all_sent [] = []
all_sent (c ∷ cs) = sent c ++ all_sent cs

abbrev pub with_out : Console → List ℕ → Console
with_out k out = record k { out = out }

pub print_string-sent :
    (fuel : ℕ) (s : Ptr) (cs : List ℕ) (k : Console)
    → Text k.kernel.bytes s cs
    → IsString cs
    → length cs < fuel
    → print_string fuel s k ≡ ok tt (with_out k (k.out ++ all_sent cs))
unfolding print_string print_char
print_string-sent zero s cs k t i f = absurd (omega arith)
print_string-sent (suc fuel) s [] k t i f =
    rw t (ap (λ o. ok tt (with_out k o)) (sym (append-nil k.out)))
print_string-sent (suc fuel) s (c ∷ cs) k t i f =
    rw (t.0, ne→== c 0 i.0)
      (print_string-sent fuel (suc s) cs (with_out k (k.out ++ sent c)) t.1 i.1 (omega arith)
        ∙ ap (λ o. ok tt (with_out k o)) (append_assoc k.out (sent c) (all_sent cs)))

-- The characters from `p` on are those of the list.
abbrev pub Typed : Bytes → Ptr → List ℕ → Type 0
Typed m p [] = Unit {0}
Typed m p (c ∷ cs) = (m p ≡ c) × Typed m (suc p) cs

abbrev pub drop_last : List ℕ → List ℕ
drop_last [] = []
drop_last (c ∷ []) = []
drop_last (c ∷ d ∷ cs) = c ∷ drop_last (d ∷ cs)

-- What a key other than a carriage return does to the line.
abbrev pub edit : List ℕ → ℕ → List ℕ
edit line c =
    if c == 8 || c == 127
    then drop_last line
    else if is_printable c && ltb (length line) (command_buffer_size - 1)
    then line ++ c ∷ []
    else line

abbrev pub edit_all : List ℕ → List ℕ → List ℕ
edit_all line [] = line
edit_all line (c ∷ cs) = edit_all (edit line c) cs

pub length-drop_last : (c : ℕ) (cs : List ℕ) → length (drop_last (c ∷ cs)) ≡ length cs
length-drop_last c [] = refl
length-drop_last c (d ∷ cs) = ap suc (length-drop_last d cs)

pub Typed-drop_last :
    (m : Bytes) (p : Ptr) (line : List ℕ) → Typed m p line → Typed m p (drop_last line)
Typed-drop_last m p [] t = tt
Typed-drop_last m p (c ∷ []) t = tt
Typed-drop_last m p (c ∷ d ∷ cs) t = (t.0, Typed-drop_last m (suc p) (d ∷ cs) t.1)

pub Typed-append :
    (m : Bytes) (p end c : ℕ) (line : List ℕ)
    → end ≡ p + length line
    → Typed m p line
    → Typed (update m end c) p (line ++ c ∷ [])
Typed-append m p end c [] e t =
    (subst (λ q. update m end c q ≡ c) (omega (arith, e)) (update_self m end c), tt)
Typed-append m p end c (d ∷ cs) e t = (
  update_ne m end c p (λ q. absurd (omega (arith, q, e))) ∙ t.0,
  Typed-append m (suc p) end c cs (omega (arith, e)) t.1,
)

pub Typed-Text :
    (m : Bytes) (p end : ℕ) (line : List ℕ)
    → end ≡ p + length line
    → Typed m p line
    → Text (update m end 0) p line
Typed-Text m p end [] e t =
    subst (λ q. update m end 0 q ≡ 0) (omega (arith, e)) (update_self m end 0)
Typed-Text m p end (d ∷ cs) e t = (
  update_ne m end 0 p (λ q. absurd (omega (arith, q, e))) ∙ t.0,
  Typed-Text m (suc p) end cs (omega (arith, e)) t.1,
)
