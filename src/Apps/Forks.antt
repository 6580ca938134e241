-- ===== src/Apps/Forks.antt =====
-- base/apps/waiter.c: the forks that the waiter of the philosophers hands out, and how it answers a
-- message.
use arcos_os.Prelude.{
  ℕ, zero, suc, ◌+◌, ◌-◌, ◌%◌, ◌≤◌, ◌<◌, ◌≡◌, refl, inl, inr, Bool, true, false, ◌&&◌, ◌==◌,
  if◌then◌else◌, ltb, List, [], ◌∷◌, update, update_self, arith, Bool-cases, ==→eq, ltb→lt,
}
use arcos_os.Types.{ulong_mod}

-- The variables freeForks and forksInUse of AppWaiter. An index that is not below 5 is outside of the
-- array in the source, where the bytes behind it are another variable's.
pub record Forks : Type 0 where
  pub free : ℕ → Bool
  pub in_use : ℕ

abbrev pub all_free : Forks
all_free = record { free = λ _. true; in_use = 0 }

abbrev pub fork_count : ℕ
fork_count = 5

-- 'D', 'R' and 'L'
abbrev pub drop_type : ℕ
drop_type = 68

abbrev pub right_type : ℕ
right_type = 82

abbrev pub left_type : ℕ
left_type = 76

abbrev pub take : ℕ → Forks → Forks
take n f = record { free = update f.free n false; in_use = (f.in_use + 1) % ulong_mod }

abbrev pub drop : ℕ → Forks → Forks
drop n f = record { free = update f.free n true; in_use = (f.in_use + ulong_mod - 1) % ulong_mod }

-- The three `if` statements on the type of a message, with the forks behind them, and whether a fork is
-- granted; a message has one type.
unfoldable pub handle_message : ℕ → ℕ → Forks → Forks × Bool
handle_message type n f =
    if type == drop_type
    then (drop n f, false)
    else if type == right_type
    then (if f.free n then (take n f, true) else (f, false))
    else if type == left_type
    then (if ltb f.in_use 4 && f.free n then (take n f, true) else (f, false))
    else (f, false)

-- How many of the first `n` forks are in use.
abbrev pub used : (ℕ → Bool) → ℕ → ℕ
used free zero = 0
used free (suc n) = used free n + (if free n then 0 else 1)

used-le : (free : ℕ → Bool) (n : ℕ) → used free n ≤ n
used-le free zero = omega arith
used-le free (suc n) = ground (arith, used-le free n)

used-outside :
    (free : ℕ → Bool) (i n : ℕ) (b : Bool) → n ≤ i → used (update free i b) n ≡ used free n
unfolding update
used-outside free i zero b h = refl
used-outside free i (suc n) b h = ground (arith, used-outside free i n b)

used-take :
    (free : ℕ → Bool) (i n : ℕ)
    → i < n
    → free i ≡ true
    → used (update free i false) n ≡ used free n + 1
unfolding update
used-take free i zero h e = absurd (omega arith)
used-take free i (suc n) h e = ground (arith, used-outside free i n false, used-take free i n)

used-drop :
    (free : ℕ → Bool) (i n : ℕ)
    → i < n
    → free i ≡ false
    → used (update free i true) n + 1 ≡ used free n
unfolding update
used-drop free i zero h e = absurd (omega arith)
used-drop free i (suc n) h e = ground (arith, used-outside free i n true, used-drop free i n)

free_of_used : (free : ℕ → Bool) (n : ℕ) → used free n < n → (i : ℕ) × (i < n) × (free i ≡ true)
free_of_used free zero h = absurd (omega arith)
free_of_used free (suc n) h = elim (Bool-cases (free n)) [
  | inl yes_free ↦ (n, omega arith, yes_free)
  | inr taken ↦ let (i, lt, e) = free_of_used free n (ground arith) in (i, omega arith, e)
]

-- The waiter's count is the number of the forks in use.
abbrev pub Counts : Forks → Type 0
Counts f = f.in_use ≡ used f.free fork_count

-- What a message to the waiter may ask for: one of the forks, and only one that is in use is dropped.
abbrev pub Allowed : Forks → ℕ × ℕ → Type 0
Allowed f (type, n) = (n < fork_count) × (type ≡ drop_type → f.free n ≡ false)

-- The forks once the messages are handled.
abbrev pub handle_all : List (ℕ × ℕ) → Forks → Forks
handle_all [] f = f
handle_all ((type, n) ∷ rest) f = handle_all rest (handle_message type n f).0

abbrev pub AllAllowed : List (ℕ × ℕ) → Forks → Type 0
AllAllowed [] f = Unit {0}
AllAllowed ((type, n) ∷ rest) f = Allowed f (type, n) × AllAllowed rest (handle_message type n f).0

take-Counts : (f : Forks) (n : ℕ) → Counts f → n < fork_count → f.free n ≡ true → Counts (take n f)
take-Counts f n c h e =
    omega (arith, c, used-take f.free n fork_count h e, used-le (update f.free n false) fork_count)

drop-Counts : (f : Forks) (n : ℕ) → Counts f → n < fork_count → f.free n ≡ false → Counts (drop n f)
drop-Counts f n c h e =
    omega (arith, c, used-drop f.free n fork_count h e, used-le f.free fork_count)

-- The three ways in which a message is answered.
pub data Answer (type n : ℕ) (f : Forks) : Forks × Bool → Type 0 where
  dropped : type ≡ drop_type → Answer type n f (drop n f, false)
  granted : f.free n ≡ true → (type ≡ left_type → f.in_use < 4) → Answer type n f (take n f, true)
  ignored : Answer type n f (f, false)

handle_message-Answer : (type n : ℕ) (f : Forks) → Answer type n f (handle_message type n f)
unfolding handle_message
handle_message-Answer type n f = elim (Bool-cases (type == drop_type)) [
  | inl is_drop ↦ rw is_drop (dropped (==→eq type drop_type is_drop))
  | inr no_drop ↦ elim (Bool-cases (f.free n)) [
    | inr taken ↦ elim (Bool-cases (type == right_type)) [
      | inl is_right ↦ rw (no_drop, is_right, taken) ignored
      | inr no_right ↦ elim (Bool-cases (type == left_type)) [
        | inr no_left ↦ rw (no_drop, no_right, no_left) ignored
        | inl is_left ↦ elim (Bool-cases (ltb f.in_use 4)) [
          | inl few ↦ rw (no_drop, no_right, is_left, few, taken) ignored
          | inr many ↦ rw (no_drop, no_right, is_left, many) ignored
        ]
      ]
    ]
    | inl is_free ↦ elim (Bool-cases (type == right_type)) [
      | inl is_right ↦ rw (no_drop, is_right, is_free) (granted is_free (λ e. ground arith))
      | inr no_right ↦ elim (Bool-cases (type == left_type)) [
        | inr no_left ↦ rw (no_drop, no_right, no_left) ignored
        | inl is_left ↦ elim (Bool-cases (ltb f.in_use 4)) [
          | inl few ↦
              rw (no_drop, no_right, is_left, few, is_free)
                (granted is_free (λ e. ltb→lt f.in_use 4 few))
          | inr many ↦ rw (no_drop, no_right, is_left, many) ignored
        ]
      ]
    ]
  ]
]

Answer-Counts :
    {type n : ℕ} {f : Forks} {r : Forks × Bool}
    → Answer type n f r
    → Counts f
    → Allowed f (type, n)
    → Counts r.0
Answer-Counts {type} {n} {f} (dropped is_drop) c a = drop-Counts f n c a.0 (a.1 is_drop)
Answer-Counts {type} {n} {f} (granted is_free few) c a = take-Counts f n c a.0 is_free
Answer-Counts ignored c a = c

Answer-granted :
    {type n : ℕ} {f : Forks} {r : Forks × Bool}
    → Answer type n f r
    → r.1 ≡ true
    → (f.free n ≡ true) × (type ≡ left_type → f.in_use < 4) × (r.0 ≡ take n f)
Answer-granted (dropped is_drop) g = cc
Answer-granted (granted is_free few) g = (is_free, few, refl)
Answer-granted ignored g = cc

handle_message-Counts :
    (type n : ℕ) (f : Forks) → Counts f → Allowed f (type, n) → Counts (handle_message type n f).0
handle_message-Counts type n f c a = Answer-Counts (handle_message-Answer type n f) c a

handle_all-Counts :
    (ms : List (ℕ × ℕ)) (f : Forks) → Counts f → AllAllowed ms f → Counts (handle_all ms f)
handle_all-Counts [] f c a = c
handle_all-Counts ((type, n) ∷ ms) f c a =
    handle_all-Counts ms (handle_message type n f).0 (handle_message-Counts type n f c a.0) a.1

-- However the philosophers' messages are ordered, as long as they name one of the five forks and drop only
-- forks that are in use: the waiter's count is the number of forks in use, a fork is granted only
-- while it is free and is in use from then on, and behind the grant of a left fork some fork is still
-- free.
pub handle_message-IsSafe :
    (ms : List (ℕ × ℕ)) (type n : ℕ)
    → AllAllowed ms all_free
    → Allowed (handle_all ms all_free) (type, n)
    → (let f = handle_all ms all_free in
        let (f', fork) = handle_message type n f in
        Counts f'
        × (fork ≡ true → (f.free n ≡ true) × (f'.free n ≡ false))
        × (fork ≡ true → type ≡ left_type → (i : ℕ) × (i < fork_count) × (f'.free i ≡ true)))
handle_message-IsSafe ms type n all a =
    let f : Forks = handle_all ms all_free in
    let c : Counts f = handle_all-Counts ms all_free refl all in
    (
      handle_message-Counts type n f c a,
      (λ g.
          let (e, few, t) = Answer-granted (handle_message-Answer type n f) g in
          (e, rw t (update_self f.free n false))),
      (λ g is_left.
          let (e, few, t) = Answer-granted (handle_message-Answer type n f) g in
          rw t (
            free_of_used (update f.free n false) fork_count
              (omega (arith, c, few is_left, used-take f.free n fork_count a.0 e)))),
    )
