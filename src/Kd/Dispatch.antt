-- ===== src/Kd/Dispatch.antt =====
-- base/kd/kdcommand.c: KdpSplitParameter, and the command that KdpExecuteCommand chooses.
use arcos_os.Prelude.{
  ℕ, zero, suc, ◌+◌, ◌<◌, ◌≡◌, refl, ◌∙◌, sym, ap, inl, inr, Bool, true, false, ◌&&◌, Option, none,
  some, List, [], ◌∷◌, ◌++◌, length, has, arith, ◌==◌, ltb, if◌then◌else◌, update, update_self,
  update_ne, eq→==, ne→==, Bool-cases,
}
use arcos_os.Prelude.Run.{Cmd, Run, ok, Returns, returns, Returns-weaken}
use arcos_os.Types.{Ptr}
use arcos_os.Rtl.Memory.{Bytes}
use arcos_os.Rtl.Text.{Text, IsString}
use arcos_os.Rtl.Copy.{Text-frame}
use arcos_os.Rtl.Strings.{Comparison, below, same, above}
use arcos_os.Rtl.Compare.{order_of, compare_strings-order}
use arcos_os.Kd.Console.{Console, Literals, kdp_print, arguments}
use arcos_os.Kd.Commands.{Command, split_parameter, execute_from, execute_command}

-- Whether the second list begins with the first.
abbrev pub is_prefix : List ℕ → List ℕ → Bool
is_prefix [] ns = true
is_prefix (c ∷ cs) [] = false
is_prefix (c ∷ cs) (n ∷ ns) = (n == c) && is_prefix cs ns

-- The names of the commands.
abbrev pub Named : Bytes → List Command → List (List ℕ) → Type 0
Named m [] [] = Unit {0}
Named m (c ∷ cs) (n ∷ ns) = Text m c.text.name n × IsString n × Named m cs ns
Named m cs ns = ⊥

-- The first command whose name begins with the word.
abbrev pub chosen : List ℕ → List Command → List (List ℕ) → Option Command
chosen word (c ∷ cs) (n ∷ ns) = if is_prefix word n then some c else chosen word cs ns
chosen word cs ns = none

abbrev is_same : Comparison → Bool
is_same same = true
is_same _ = false

differ : (b : Bool) → is_same (if b then below else above) ≡ false
differ true = refl
differ false = refl

order_of-is_prefix : (ns word : List ℕ) → is_same (order_of ns word) ≡ is_prefix word ns
order_of-is_prefix ns [] = refl
order_of-is_prefix [] (c ∷ cs) = refl
order_of-is_prefix (n ∷ ns) (c ∷ cs) = elim (Bool-cases (n == c)) [
  | inl hit ↦ rw hit (order_of-is_prefix ns cs)
  | inr miss ↦ rw miss (differ (ltb n c))
]

module _ (fuel : ℕ) (texts : Literals) where
  -- What KdpExecuteCommand does with the command it has chosen.
  abbrev pub run_chosen : Option Command → Ptr → Ptr → Console → Run Console (Unit {0})
  run_chosen none command parameter = kdp_print fuel (arguments (command ∷ [])) texts.not_recognized
  run_chosen (some c) command parameter = c.execute parameter

  after_comparison :
      (c : Command) (later : Option Command) (cs : List Command) (command parameter : Ptr)
      (k : Console)
      → execute_from fuel texts cs command parameter k ≡ run_chosen later command parameter k
      → (o : Comparison)
      → (elim o as (λ _. Cmd Console (Unit {0})) [
        | same ↦ c.execute parameter
        | _ ↦ execute_from fuel texts cs command parameter
      ])
          k
        ≡ run_chosen (if is_same o then some c else later) command parameter k
  after_comparison c later cs command parameter k e below = e
  after_comparison c later cs command parameter k e same = refl
  after_comparison c later cs command parameter k e above = e

  execute_from-chosen :
      (cs : List Command) (ns : List (List ℕ)) (word : List ℕ) (command parameter : Ptr)
      (k : Console)
      → Named k.kernel.bytes cs ns
      → Text k.kernel.bytes command word
      → IsString word
      → length word < fuel
      → execute_from fuel texts cs command parameter k
        ≡ run_chosen (chosen word cs ns) command parameter k
  unfolding execute_from
  execute_from-chosen [] [] word command parameter k named t s f = refl
  execute_from-chosen [] (n ∷ ns) word command parameter k named t s f = absurd named
  execute_from-chosen (c ∷ cs) [] word command parameter k named t s f = absurd named
  execute_from-chosen (c ∷ cs) (n ∷ ns) word command parameter k named t s f =
      rw
        (compare_strings-order fuel k.kernel.bytes c.text.name command n word named.0 t named.1 s f)
        (after_comparison c (chosen word cs ns) cs command parameter k
            (execute_from-chosen cs ns word command parameter k named.2 t s f) (order_of n word)
          ∙ ap (λ b. run_chosen (if b then some c else chosen word cs ns) command parameter k)
              (order_of-is_prefix n word))

abbrev pub with_byte : Console → Ptr → ℕ → Console
with_byte k p c = record k { kernel = record k.kernel { bytes = update k.kernel.bytes p c } }

unsplit :
    (fuel : ℕ) (command : Ptr) (word : List ℕ) (k : Console)
    → Text k.kernel.bytes command word
    → IsString word
    → has 32 word ≡ false
    → length word < fuel
    → split_parameter fuel command k ≡ ok (command + length word) k
unfolding split_parameter
unsplit zero command word k t s spaces f = absurd (omega arith)
unsplit (suc fuel) command [] k t s spaces f = rw t (ap (λ p. ok p k) (omega arith))
unsplit (suc fuel) command (c ∷ cs) k t s spaces f =
    rw (t.0, ne→== c 0 s.0, ne→== c 32 (λ e. ground (arith, e, spaces)))
      (unsplit fuel (suc command) cs k t.1 s.1 (ground (arith, spaces)) (omega arith)
        ∙ ap (λ p. ok p k) (omega arith))

-- KdpSplitParameter of a word that a space ends, with more behind it, puts the terminator in the
-- space's place and returns the address of what follows: the word and the parameter are then two strings.
-- Nothing else changes. It needs one round more than the word has characters.
pub split_parameter-words :
    (fuel : ℕ) (command : Ptr) (word parameter : List ℕ) (k : Console)
    → Text k.kernel.bytes command (word ++ 32 ∷ parameter)
    → IsString word
    → has 32 word ≡ false
    → length word < fuel
    → Returns
        (λ p k'.
          (p ≡ command + length word + 1)
          × Text k'.kernel.bytes command word
          × Text k'.kernel.bytes p parameter
          × (k' ≡ with_byte k (command + length word) 0))
        (split_parameter fuel command k)
unfolding split_parameter
split_parameter-words zero command word parameter k t s spaces f = absurd (omega arith)
split_parameter-words (suc fuel) command [] parameter k t s spaces f =
    let here : command + 0 ≡ command = omega arith in
    rw
      (
        ne→== (k.kernel.bytes command) 0 (rw t.0 λ e. omega (arith, e)),
        eq→== (k.kernel.bytes command) 32 t.0,
      )
      (returns {s = with_byte k command 0} (
        omega arith,
        update_self k.kernel.bytes command 0,
        Text-frame k.kernel.bytes (update k.kernel.bytes command 0) (suc command) parameter
            (λ a lo hi. update_ne k.kernel.bytes command 0 a (λ q. absurd (omega (arith, q, lo))))
            t.1,
        ap (λ p. with_byte k p 0) (sym here),
      ))
split_parameter-words (suc fuel) command (c ∷ cs) parameter k t s spaces f =
    rw (t.0, ne→== c 0 s.0, ne→== c 32 (λ e. ground (arith, e, spaces)))
      (Returns-weaken
        (split_parameter-words fuel (suc command) cs parameter k t.1 s.1 (ground (arith, spaces))
          (omega arith))
        (λ p k' done. (
          omega (arith, done.0),
          (
            ap (λ (x : Console). x.kernel.bytes command) done.3
                ∙ update_ne k.kernel.bytes (suc command + length cs) 0 command
                    (λ q. absurd (omega (arith, q)))
                ∙ t.0,
            done.1,
          ),
          done.2,
          done.3 ∙ ap (λ p. with_byte k p 0) (omega arith),
        )))

-- KdpExecuteCommand of a line without a space runs the first command whose name begins with the line,
-- with the end of the line as its parameter, and reports an unknown command where there is none. It
-- needs one round more than the line has characters.
pub execute_command-chosen :
    (fuel : ℕ) (texts : Literals) (cs : List Command) (ns : List (List ℕ)) (word : List ℕ)
    (command : Ptr) (k : Console)
    → Named k.kernel.bytes cs ns
    → Text k.kernel.bytes command word
    → IsString word
    → has 32 word ≡ false
    → length word < fuel
    → execute_command fuel texts cs command k
      ≡ run_chosen fuel texts (chosen word cs ns) command (command + length word) k
unfolding execute_command
execute_command-chosen fuel texts cs ns word command k named t s spaces f =
    rw (unsplit fuel command word k t s spaces f)
      (execute_from-chosen fuel texts cs ns word command (command + length word) k named t s f)
