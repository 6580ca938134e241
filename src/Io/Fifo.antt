-- ===== src/Io/Fifo.antt =====
-- base/io/io.c: the buffer of characters that come from the keyboard. It is a static array, so that it
-- begins with zeros.
use arcos_os.Prelude.{
  ℕ, zero, suc, ◌+◌, ◌-◌, ◌≤◌, ◌<◌, ◌≡◌, refl, ◌∙◌, ap, subst, inl, inr, List, [], ◌∷◌, ◌++◌,
  length, ltb, if◌then◌else◌, update, update_self, update_ne, arith, Bool-cases, ℕ_discrete,
}

abbrev pub fifo_size : ℕ
fifo_size = 16

-- FIFO
pub record Fifo : Type 0 where
  pub buffer : ℕ → ℕ
  pub count : ℕ

-- IoInitialize, as far as it touches the buffer.
abbrev pub initial : Fifo
initial = record { buffer = λ _. 0; count = 0 }

unfoldable pub add_char_to_buffer : ℕ → Fifo → Fifo
add_char_to_buffer c f =
    if ltb (f.count + 1) fifo_size
    then (record { buffer = update f.buffer f.count c; count = f.count + 1 })
    else f

-- The `for` loop of GetFirstCharFromBuffer, from `i` on for `n` rounds.
unfoldable pub shift : ℕ → ℕ → (ℕ → ℕ) → ℕ → ℕ
shift zero i b = b
shift (suc n) i b = shift n (suc i) (update b i (b (i + 1)))

unfoldable pub get_first_char_from_buffer : Fifo → ℕ × Fifo
get_first_char_from_buffer f = (
  f.buffer 0,
  record {
    buffer = shift f.count 0 f.buffer;
    count = if ltb 0 f.count then f.count - 1 else f.count;
  },
)

-- The characters from `i` on are `cs`, and zeros behind them.
abbrev pub Holding : (ℕ → ℕ) → ℕ → List ℕ → Type 0
Holding b i [] = (j : ℕ) → i ≤ j → b j ≡ 0
Holding b i (c ∷ cs) = (b i ≡ c) × Holding b (suc i) cs

-- The buffer holds the characters `cs`.
abbrev pub Contains : Fifo → List ℕ → Type 0
Contains f cs = (f.count ≡ length cs) × Holding f.buffer 0 cs

Holding-frame :
    (b b' : ℕ → ℕ) (i : ℕ) (cs : List ℕ)
    → ((j : ℕ) → i ≤ j → b' j ≡ b j)
    → Holding b i cs
    → Holding b' i cs
Holding-frame b b' i [] same h = λ j le. same j le ∙ h j le
Holding-frame b b' i (c ∷ cs) same h =
    (same i (omega arith) ∙ h.0, Holding-frame b b' (suc i) cs (λ j le. same j (omega arith)) h.1)

Holding-append :
    (b : ℕ → ℕ) (i c n : ℕ) (cs : List ℕ)
    → n ≡ i + length cs
    → Holding b i cs
    → Holding (update b n c) i (cs ++ c ∷ [])
Holding-append b i c n [] e h = (
  subst (λ k. update b n c k ≡ c) (omega (arith, e)) (update_self b n c),
  λ j le. update_ne b n c j (λ q. absurd (omega (arith, q, e))) ∙ h j (omega arith),
)
Holding-append b i c n (d ∷ cs) e h = (
  update_ne b n c i (λ q. absurd (omega (arith, q, e))) ∙ h.0,
  Holding-append b (suc i) c n cs (omega (arith, e)) h.1,
)

length-append : (xs ys : List ℕ) → length (xs ++ ys) ≡ length xs + length ys
length-append [] ys = omega arith
length-append (x ∷ xs) ys = omega (arith, length-append xs ys)

shift_below : (n i : ℕ) (b : ℕ → ℕ) (j : ℕ) → j < i → shift n i b j ≡ b j
unfolding shift
shift_below zero i b j lt = refl
shift_below (suc n) i b j lt =
    shift_below n (suc i) (update b i (b (i + 1))) j (omega arith)
    ∙ update_ne b i _ j (λ q. absurd (omega (arith, q)))

-- The loop moves the characters behind the first one by one place.
Holding-shift :
    (b : ℕ → ℕ) (i c : ℕ) (cs : List ℕ)
    → Holding b i (c ∷ cs)
    → Holding (shift (length (c ∷ cs)) i b) i cs
unfolding shift
Holding-shift b i c [] h = λ j le. elim (ℕ_discrete j i) [
  | yes e ↦ ap (update b i (b (i + 1))) e ∙ update_self b i (b (i + 1)) ∙ h.1 (i + 1) (omega arith)
  | no ne ↦ update_ne b i (b (i + 1)) j ne ∙ h.1 j (ground arith)
]
Holding-shift b i c (d ∷ ds) h =
    let b1 : ℕ → ℕ = update b i (b (i + 1)) in
    let next : Holding b1 (suc i) (d ∷ ds) =
      Holding-frame b b1 (suc i) (d ∷ ds)
        (λ j le. update_ne b i (b (i + 1)) j (λ q. absurd (omega (arith, q)))) h.1 in
    (
      shift_below (suc (length ds)) (suc i) b1 i (omega arith)
          ∙ update_self b i (b (i + 1))
          ∙ subst (λ k. b k ≡ d) (omega arith) h.1.0,
      Holding-shift b1 (suc i) d ds next,
    )

-- AddCharToBuffer puts a character behind those in the buffer as long as there are fewer than 15,
-- and drops it otherwise.
pub add_char_to_buffer-Contains :
    (f : Fifo) (cs : List ℕ) (c : ℕ)
    → Contains f cs
    → Contains (add_char_to_buffer c f) (if ltb (length cs + 1) fifo_size then cs ++ c ∷ [] else cs)
unfolding add_char_to_buffer
add_char_to_buffer-Contains f cs c h = elim (Bool-cases (ltb (length cs + 1) fifo_size)) [
  | inl room ↦
      rw (h.0, room)
        (
          omega (arith, length-append cs (c ∷ [])),
          Holding-append f.buffer 0 c (length cs) cs (omega arith) h.1,
        )
  | inr full ↦ rw (h.0, full) (refl, h.1)
]

-- GetFirstCharFromBuffer takes the first character out of the buffer and keeps the others in their
-- order; from an empty buffer it returns 0 and leaves the buffer empty.
pub get_first_char_from_buffer-Contains :
    (f : Fifo) (cs : List ℕ)
    → Contains f cs
    → ((get_first_char_from_buffer f).0 ≡ elim cs [ [] ↦ 0 | ◌∷◌ c _ ↦ c ])
      × Contains (get_first_char_from_buffer f).1 (elim cs [ [] ↦ [] | ◌∷◌ _ ds ↦ ds ])
unfolding get_first_char_from_buffer shift
get_first_char_from_buffer-Contains f [] h = (h.1 0 (omega arith), rw h.0 (refl, h.1))
get_first_char_from_buffer-Contains f (c ∷ ds) h =
    (h.1.0, rw h.0 (ground arith, Holding-shift f.buffer 0 c ds h.1))
