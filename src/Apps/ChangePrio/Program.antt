-- ===== src/Apps/ChangePrio/Program.antt =====
-- base/apps/changeprio.c: the calls of the whole program.
use arcos_os.Prelude.{
  ℕ, suc, ◌+◌, ◌<◌, ◌≡◌, ◌≢◌, refl, ap, ◌∙◌, false, ◌==◌, List, [], ◌∷◌, ◌++◌, length, append_assoc,
  inl, inr, Bool-cases, ne→==,
}
use arcos_os.Types.{Ptr}
use arcos_os.Rtl.Strings.{app_is_digit}
use arcos_os.Rtl.Format.Digits.{AllDigits, value}
use arcos_os.Apps.{Call, copy_args, kd_print, change_priority, kill_me, Memory, User, ended}
use arcos_os.Apps.ChangePrio.{Addresses, report, app_change_prio}
use arcos_os.Apps.ChangePrio.Parse.{Chars, AllPlain}
use arcos_os.Apps.ChangePrio.Split.{split_args-numbers}

-- Lines of the debugger's output, of one number each, and the end.
abbrev pub told : List (Ptr × ℕ) → List Call
told [] = kill_me ∷ []
told ((p, n) ∷ lines) = kd_print p (n ∷ []) ∷ told lines

report-ends :
    {W : Type 0} (serve : Call → Memory → W → ℕ × Memory × W) (rounds : ℕ) (at : Addresses)
    (u : User W) (first second : Ptr) (pid status : ℕ)
    → (u' : User W) × (lines : List (Ptr × ℕ)) × (report serve rounds at first second pid status u
        ≡ ended u')
      × (u'.calls ≡ u.calls ++ told lines)
unfolding report
report-ends serve rounds at u first second pid status = elim (Bool-cases (status == 0)) [
  | inl z ↦ rw z (
    _,
    (at.changed, first) ∷ (at.changed_to, second) ∷ [],
    refl,
    append_assoc (u.calls ++ kd_print at.changed (first ∷ []) ∷ [])
          (kd_print at.changed_to (second ∷ []) ∷ []) (kill_me ∷ [])
        ∙ append_assoc u.calls (kd_print at.changed (first ∷ []) ∷ [])
            (kd_print at.changed_to (second ∷ []) ∷ kill_me ∷ []),
  )
  | inr nz ↦ rw nz (
    _,
    (at.not_in_use, pid) ∷ [],
    refl,
    append_assoc u.calls (kd_print at.not_in_use (pid ∷ []) ∷ []) (kill_me ∷ []),
  )
]

module _ {W : Type 0} (serve : Call → Memory → W → ℕ × Memory × W) (rounds : ℕ) (at : Addresses)
    (u : User W) (pre xs apart ys : List ℕ) (x s y : ℕ) where
  -- Behind CopyArgs.
  abbrev served : ℕ × Memory × W
  served = serve (copy_args at.args 25) u.memory u.world

  abbrev after : User W
  after = record {
    memory = served.1;
    world = served.2;
    calls = u.calls ++ copy_args at.args 25 ∷ [];
  }

  abbrev end : Ptr
  end = suc (suc (suc (at.args + length pre) + length xs) + length apart) + length ys

  -- Let CopyArgs copy at least one character, and let the arguments be characters that are no digits, a
  -- number, characters that are no digits, at least one, and a number that is followed by no digit. With
  -- a round for each character, AppChangePrio ends, and calls ChangePriority behind CopyArgs, once, with
  -- the two numbers modulo 2 ^ 32.
  pub app_change_prio-numbers :
      served.0 ≢ 0
      → Chars served.1.bytes at.args (pre ++ ((x ∷ xs) ++ ((s ∷ apart) ++ (y ∷ ys))))
      → AllPlain pre
      → AllDigits (x ∷ xs)
      → AllPlain (s ∷ apart)
      → AllDigits (y ∷ ys)
      → app_is_digit (served.1.bytes end) ≡ false
      → length pre + length xs + length apart + length ys < rounds
      → (u' : User W) × (lines : List (Ptr × ℕ)) × (app_change_prio serve (suc rounds) at u
          ≡ ended u')
        × (u'.calls
            ≡ u.calls
              ++ copy_args at.args 25
                ∷ change_priority (value 0 (x ∷ xs)) (value 0 (y ∷ ys))
                ∷ told lines)
  unfolding app_change_prio
  app_change_prio-numbers some_args chars plain digits plain' digits' ends f =
      let (split, one, two, three, four) =
        split_args-numbers serve rounds at after pre xs apart ys x s y chars plain digits plain'
          digits' ends f in
      let pid = value 0 (x ∷ xs) in
      let prio = value 0 (y ∷ ys) in
      let change = change_priority pid prio in
      let first = at.args + length pre in
      let second = suc (suc first + length xs) + length apart in
      let (status, memory, world) = serve (change_priority pid prio) split.memory split.world in
      let changed : User W = record {
        memory = memory;
        world = world;
        calls = split.calls ++ change_priority pid prio ∷ [];
      } in
      let (u', lines, runs, calls) =
        report-ends serve (suc rounds) at changed first second pid status in
      (
        u',
        lines,
        rw (ne→== served.0 0 some_args, one, two, three) runs,
        calls
            ∙ append_assoc split.calls (change ∷ []) (told lines)
            ∙ ap (λ l. l ++ change ∷ told lines) four
            ∙ append_assoc u.calls (copy_args at.args 25 ∷ []) (change ∷ told lines),
      )
