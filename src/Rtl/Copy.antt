-- ===== src/Rtl/Copy.antt =====
-- base/rtl/string.c: RtlCopyString and RtlStringLength on strings seen as lists of characters.
use arcos_os.Prelude.{
  ℕ, zero, suc, ◌+◌, ◌≤◌, ◌<◌, ◌≡◌, ◌∙◌, ◌⊎◌, inl, some, List, [], ◌∷◌, length, arith, update,
  update_self, update_ne, ne→==, subst,
}
use arcos_os.Types.{Ptr}
use arcos_os.Rtl.Memory.{Bytes}
use arcos_os.Rtl.Text.{Text, IsString}
use arcos_os.Rtl.Strings.{copy_string, string_length}

-- A string does not change where memory does not.
pub Text-frame :
    (m m' : Bytes) (p : Ptr) (cs : List ℕ)
    → ((a : Ptr) → p ≤ a → a ≤ p + length cs → m' a ≡ m a)
    → Text m p cs
    → Text m' p cs
Text-frame m m' p [] same t = same p (omega arith) (omega arith) ∙ t
Text-frame m m' p (c ∷ cs) same t = (
  same p (omega arith) (omega arith) ∙ t.0,
  Text-frame m m' (suc p) cs (λ a lo hi. same a (omega arith) (omega arith)) t.1,
)

-- Where a string ends, there is its terminator.
pub Text-end : (m : Bytes) (p : Ptr) (cs : List ℕ) → Text m p cs → m (p + length cs) ≡ 0
Text-end m p [] t = subst (λ q. m q ≡ 0) (omega arith) t
Text-end m p (c ∷ cs) t = subst (λ q. m q ≡ 0) (omega arith) (Text-end m (suc p) cs t.1)

pub string_length-length :
    (fuel : ℕ) (m : Bytes) (p : Ptr) (cs : List ℕ)
    → Text m p cs
    → IsString cs
    → length cs < fuel
    → string_length fuel m p ≡ some (length cs)
unfolding string_length
string_length-length zero m p cs t s f = absurd (omega arith)
string_length-length (suc fuel) m p [] t s f = rw t
string_length-length (suc fuel) m p (c ∷ cs) t s f =
    rw (t.0, ne→== c 0 s.0, string_length-length fuel m (suc p) cs t.1 s.1 (omega arith))

-- RtlCopyString of a string to memory that is apart from it makes a copy of the string, its terminator
-- included, and changes no byte outside the copy. The loop needs one round more than the string has
-- characters.
pub copy_string-Text :
    (fuel : ℕ) (dest src : Ptr) (m : Bytes) (cs : List ℕ)
    → Text m src cs
    → IsString cs
    → (src + length cs < dest) ⊎ (dest + length cs < src)
    → length cs < fuel
    → (m' : Bytes) × (copy_string fuel dest src m ≡ some m')
      × Text m' dest cs
      × ((a : Ptr) → (a < dest) ⊎ (dest + length cs < a) → m' a ≡ m a)
unfolding copy_string
copy_string-Text zero dest src m cs t s apart f = absurd (omega arith)
copy_string-Text (suc fuel) dest src m [] t s apart f = (
  update m dest (m src),
  rw t,
  update_self m dest (m src) ∙ t,
  λ a out. update_ne m dest (m src) a (λ q. absurd (omega (arith, q, out))),
)
copy_string-Text (suc fuel) dest src m (c ∷ cs) t s apart f =
    let m1 : Bytes = update m dest (m src) in
    let src_kept =
      Text-frame m m1 (suc src) cs
        (λ a lo hi. update_ne m dest (m src) a (λ q. absurd (omega (arith, q, lo, hi, apart))))
        t.1 in
    let (m', run, copy, kept) =
      copy_string-Text fuel (suc dest) (suc src) m1 cs src_kept s.1 (omega (arith, apart))
        (omega arith) in
    (
      m',
      rw (ne→== (m src) 0 (rw t.0 s.0)) run,
      (kept dest (inl (omega arith)) ∙ update_self m dest (m src) ∙ t.0, copy),
      λ a out.
          kept a (omega (arith, out))
          ∙ update_ne m dest (m src) a (λ q. absurd (omega (arith, q, out))),
    )
