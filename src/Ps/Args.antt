-- ===== src/Ps/Args.antt =====
-- base/ps/ps.c: PsCopyArgs on an argument string.
use arcos_os.Prelude.{
  ℕ, zero, suc, ◌+◌, ◌-◌, ◌≤◌, ◌<◌, ◌≡◌, ◌≢◌, refl, ◌∙◌, sym, ap, ◌⊎◌, inl, inr, List, [], ◌∷◌,
  length, arith, ◌==◌, ltb, if◌then◌else◌, update, update_self, update_ne, Bool-cases, ne→==,
  ltb→lt, subst,
}
use arcos_os.Prelude.Run.{Returns, returns, Returns-weaken, Returns-bind}
use arcos_os.Types.{Ptr, null}
use arcos_os.Kernel.{Kernel}
use arcos_os.Ke.Chain.{load-ok}
use arcos_os.Rtl.Memory.{Bytes}
use arcos_os.Rtl.Text.{Text, IsString}
use arcos_os.Rtl.Copy.{Text-frame}
use arcos_os.Ps.Info.{copy_args_from, copy_args}

abbrev pub shorter : ℕ → ℕ → ℕ
shorter a b = if ltb a b then a else b

abbrev pub with_bytes : Kernel → Bytes → Kernel
with_bytes k m = record k { bytes = m }

-- What the loop has done between the indices `count` and `r`.
abbrev Copied : Ptr → Ptr → ℕ → ℕ → Bytes → Bytes → Type 0
Copied args buffer count r m m' =
    ((a : Ptr) → (a < buffer + count) ⊎ (buffer + r ≤ a) → m' a ≡ m a)
    × ((i : ℕ) → count ≤ i → i < r → m' (buffer + i) ≡ m (args + i))

shorter-step :
    (n size count : ℕ)
    → count < size
    → count + 1 + shorter n (size - (count + 1)) ≡ count + shorter (suc n) (size - count)
shorter-step n size count lt = ground arith

Copied-step :
    (args buffer count r c total : ℕ) (m m' : Bytes)
    → m (args + count) ≡ c
    → count < r
    → r ≤ total
    → (args + total < buffer) ⊎ (buffer + total < args)
    → Copied args buffer (count + 1) r (update m (buffer + count) c) m'
    → Copied args buffer count r m m'
Copied-step args buffer count r c total m m' here lt le apart done = (
  λ a out.
      done.0 a (omega (arith, out))
      ∙ update_ne m (buffer + count) c a (λ q. absurd (omega (arith, q, out, lt))),
  λ i lo hi. elim (Bool-cases (i == count)) [
    | inl now ↦
        let q : i ≡ count = ground (arith, now) in
        rw q (
          done.0 (buffer + count) (inl (omega arith)) ∙ update_self m (buffer + count) c ∙ sym here)
    | inr later ↦
        done.1 i (ground (arith, later, lo)) hi
        ∙ update_ne m (buffer + count) c (args + i)
            (λ q. absurd (omega (arith, q, hi, le, lt, lo, apart)))
  ],
)

copy_args_from-Copied :
    (rounds size count total : ℕ) (args buffer : Ptr) (k : Kernel) (cs : List ℕ)
    → Text k.bytes (args + count) cs
    → IsString cs
    → count + length cs ≡ total
    → (args + total < buffer) ⊎ (buffer + total < args)
    → length cs < rounds
    → Returns
        (λ r k'.
          (k' ≡ with_bytes k k'.bytes)
          × (r ≡ count + shorter (length cs) (size - 1 - count))
          × Copied args buffer count r k.bytes k'.bytes)
        (copy_args_from rounds args buffer size count k)
unfolding copy_args_from
copy_args_from-Copied zero size count total args buffer k cs t s e apart f = absurd (omega arith)
copy_args_from-Copied (suc rounds) size count total args buffer k [] t s e apart f =
    rw t (returns (refl, ground arith, ((λ a out. refl), λ i lo hi. absurd (omega arith))))
copy_args_from-Copied (suc rounds) size count total args buffer k (c ∷ cs) t s e apart f =
    elim (Bool-cases (ltb (count + 1) size)) [
      | inl room ↦
          let m' : Bytes = update k.bytes (buffer + count) c in
          let lt : count + 1 < size = ltb→lt (count + 1) size room in
          let next : Text m' (args + (count + 1)) cs =
            Text-frame k.bytes m' (args + (count + 1)) cs
              (λ a lo hi.
                update_ne k.bytes (buffer + count) c a
                  (λ q. absurd (omega (arith, q, lo, hi, apart, e))))
              (subst (λ p. Text k.bytes p cs) (omega arith) t.1) in
          rw (t.0, ne→== c 0 s.0, room)
            (Returns-weaken
              (copy_args_from-Copied rounds size (count + 1) total args buffer (with_bytes k m') cs
                next s.1 (omega (arith, e)) apart (omega arith))
              (λ r k' done. (
                done.0,
                done.1 ∙ shorter-step (length cs) (size - 1) count (omega arith),
                Copied-step args buffer count r c total k.bytes k'.bytes t.0 (omega (arith, done.1))
                    (ground (arith, done.1, e)) apart done.2,
              )))
      | inr full ↦
          rw (t.0, ne→== c 0 s.0, full)
            (returns
              (refl, ground (arith, full), ((λ a out. refl), λ i lo hi. absurd (omega arith))))
    ]

-- PsCopyArgs, called by a process that has an argument string, into a buffer that is apart from the
-- string, copies the first characters of the string, as many as it has and at most one less than the
-- size, ends them with a zero, returns their number, and changes no other byte and nothing else in the
-- kernel. The loop needs one round more than the string has characters.
pub copy_args-Copied :
    (fuel size : ℕ) (buffer : Ptr) (k : Kernel) (cs : List ℕ)
    → k.ke.current ≢ null
    → (k.ke.procs k.ke.current).args ≢ null
    → Text k.bytes (k.ke.procs k.ke.current).args cs
    → IsString cs
    → ((k.ke.procs k.ke.current).args + length cs < buffer)
      ⊎ (buffer + length cs < (k.ke.procs k.ke.current).args)
    → length cs < fuel
    → Returns
        (λ r k'.
          (k' ≡ with_bytes k k'.bytes)
          × (r ≡ shorter (length cs) (size - 1))
          × ((i : ℕ) → i < r → k'.bytes (buffer + i) ≡ k.bytes ((k.ke.procs k.ke.current).args + i))
          × (k'.bytes (buffer + r) ≡ 0)
          × ((a : Ptr) → (a < buffer) ⊎ (buffer + r < a) → k'.bytes a ≡ k.bytes a))
        (copy_args fuel buffer size k)
unfolding copy_args
copy_args-Copied fuel size buffer k cs cur_ne args_ne t s apart f =
    let args : Ptr = (k.ke.procs k.ke.current).args in
    let start : Text k.bytes (args + 0) cs = subst (λ p. Text k.bytes p cs) (omega arith) t in
    rw (load-ok k.ke.current k.ke cur_ne, ne→== args null args_ne)
      (Returns-bind
        (copy_args_from-Copied fuel size 0 (length cs) args buffer k cs start s (omega arith) apart
          f)
        (λ r k' done. returns (
          ap (λ (x : Kernel). with_bytes x (update k'.bytes (buffer + r) 0)) done.0,
          ground (arith, done.1),
          (λ i lt.
              update_ne k'.bytes (buffer + r) 0 (buffer + i) (λ q. absurd (omega (arith, q, lt)))
              ∙ done.2.1 i (omega arith) lt),
          update_self k'.bytes (buffer + r) 0,
          λ a out.
              update_ne k'.bytes (buffer + r) 0 a (λ q. absurd (omega (arith, q, out)))
              ∙ done.2.0 a (omega (arith, out)),
        )))
