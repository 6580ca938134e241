-- ===== src/Tests/Programs.antt =====
-- The theorems on the programs of base/apps at concrete inputs: the waiter of the philosophers behind one
-- grant, and changeprio with the arguments " 7 2".
use arcos_os.Prelude.{ℕ, refl, ◌≡◌, ◌<◌, true, false, List, [], ◌∷◌, arith, ==→ne, update}
use arcos_os.Types.{Ptr}
use arcos_os.Kernel.{Message}
use arcos_os.Rtl.Strings.{app_is_digit}
use arcos_os.Apps.{Call, copy_args, change_priority, Memory, User, ended}
use arcos_os.Apps.Forks.{
  all_free, handle_all, handle_message, handle_message-IsSafe, Counts, fork_count, left_type,
}
use arcos_os.Apps.ChangePrio.{Addresses, app_change_prio}
use arcos_os.Apps.ChangePrio.Program.{told, app_change_prio-numbers}

handle_message-IsSafe_example :
    let f = handle_all ((76, 0) ∷ []) all_free in
    let (f', fork) = handle_message 82 1 f in
    Counts f'
    × (fork ≡ true → (f.free 1 ≡ true) × (f'.free 1 ≡ false))
    × (fork ≡ true → 82 ≡ left_type → (i : ℕ) × (i < fork_count) × (f'.free i ≡ true))
handle_message-IsSafe_example =
    handle_message-IsSafe ((76, 0) ∷ []) 82 1 ((omega arith, λ e. absurd (omega (arith, e))), tt)
      (omega arith, λ e. absurd (omega (arith, e)))

abbrev addresses : Addresses
addresses = record {
  args = 100;
  usage = 0;
  second_missing = 0;
  second_missing_short = 0;
  not_in_use = 0;
  changed = 0;
  changed_to = 0;
}

-- The arguments are " 7 2", and every call succeeds.
abbrev characters : Ptr → ℕ
characters = update (update (update (update (λ _. 0) 100 32) 101 55) 102 32) 103 50

abbrev no_message : Message
no_message = record {
  sender_pid = 0;
  receiver_pid = 0;
  priority = 0;
  type = 0;
  buffer = 0;
  buffer_size = 0;
  next = 0;
}

abbrev filled : Memory
filled = record { bytes = characters; words = λ _. 0; messages = λ _. no_message }

abbrev serve : Call → Memory → Unit {0} → ℕ × Memory × Unit {0}
serve (copy_args p n) m w = (4, filled, tt)
serve _ m w = (0, m, tt)

abbrev user : User (Unit {0})
user = record { memory = filled; world = tt; calls = [] }

app_change_prio-numbers_example :
    (u' : User (Unit {0})) × (lines : List (Ptr × ℕ)) × (app_change_prio serve 9 addresses user
      ≡ ended u')
    × (u'.calls ≡ copy_args 100 25 ∷ change_priority 7 2 ∷ told lines)
unfolding update app_is_digit
app_change_prio-numbers_example =
    app_change_prio-numbers serve 8 addresses user (32 ∷ []) [] [] [] 55 32 50 (==→ne 4 0 refl)
      (refl, (refl, (refl, (refl, tt)))) (==→ne 32 0 refl, refl, tt) (omega arith, omega arith, tt)
      (==→ne 32 0 refl, refl, tt) (omega arith, omega arith, tt) refl (omega arith)
