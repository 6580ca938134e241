-- ===== src/Apps.antt =====
-- base/apps and include/api.h: programs that run in user mode, as commands on a program's memory. What a
-- system call returns and stores, and when, the kernel and the other processes decide: `serve` is a
-- parameter of the programs, over a state of its own, and the calls that a program has made are listed.
pub mod Waiter
pub mod Scroller
pub mod ChangePrio
pub mod Forks
use arcos_os.Prelude.{ℕ, Option, none, some, List, [], ◌∷◌, ◌++◌, update}
use arcos_os.Types.{Ptr}
use arcos_os.Kernel.{Message}

-- The functions of include/api.h, and KdPrint with its arguments.
pub data Call : Type 0 where
  sleep : ℕ → Call
  get_process_id : Call
  get_pid : ℕ → Ptr → Call
  get_process_priority : Call
  kill_me : Call
  create_process : Ptr → ℕ → Ptr → Ptr → Call
  create_file : ℕ → Call
  write_file : ℕ → Ptr → ℕ → Call
  read_file : ℕ → Ptr → ℕ → Call
  kill_by_pid : ℕ → ℕ → Call
  send_message : ℕ → ℕ → Ptr → ℕ → Call
  receive_first : ℕ → Call
  receive_type : ℕ → ℕ → Call
  get_message_size : Ptr → Call
  copy_message : Ptr → Ptr → ℕ → Call
  delete_message : Ptr → Call
  change_priority : ℕ → ℕ → Call
  get_process_info : Ptr → ℕ → Ptr → Call
  supervise_proc : ℕ → ℕ → Call
  malloc : ℕ → Call
  free : Ptr → Call
  get_used_mem_sum : Call
  wait_for_single_object : ℕ → Call
  copy_args : Ptr → ℕ → Call
  close_handle : ℕ → Call
  kd_print : Ptr → List ℕ → Call

-- Characters, ULONG variables and messages, by their address.
pub record Memory : Type 0 where
  pub bytes : Ptr → ℕ
  pub words : Ptr → ℕ
  pub messages : Ptr → Message

pub record User (W : Type 0) : Type 0 where
  pub memory : Memory
  pub world : W
  pub calls : List Call

-- `ended` is a program that has called KillMe, which does not return.
pub data Outcome (W A : Type 0) : Type 0 where
  ok : A → User W → Outcome W A
  ended : User W → Outcome W A
  out_of_fuel : Outcome W A

abbrev pub App : Type 0 → Type 0 → Type 0
App W A = User W → Outcome W A

-- The state in which a run stops.
abbrev pub stops_in : {W A : Type 0} → Outcome W A → Option (User W)
stops_in (ok a u) = some u
stops_in (ended u) = some u
stops_in out_of_fuel = none

module _ {W : Type 0} where
  abbrev pub pure : {A : Type 0} → A → App W A
  pure a u = ok a u

  abbrev pub then_run : {A B : Type 0} → Outcome W A → (A → App W B) → Outcome W B
  then_run (ok a u) k = k a u
  then_run (ended u) k = ended u
  then_run out_of_fuel k = out_of_fuel

  infixl 5 ◌>>=◌ ◌>>◌
  abbrev pub ◌>>=◌ : {A B : Type 0} → App W A → (A → App W B) → App W B
  m >>= k = λ u. then_run (m u) k

  abbrev pub ◌>>◌ : {A B : Type 0} → App W A → App W B → App W B
  m >> n = m >>= λ _. n

  abbrev pub get : {A : Type 0} → (Memory → A) → App W A
  get f u = ok (f u.memory) u

  abbrev pub set_bytes : (Ptr → ℕ) → App W (Unit {0})
  set_bytes b u = ok tt (record u { memory = record u.memory { bytes = b } })

  abbrev pub put_byte : Ptr → ℕ → App W (Unit {0})
  put_byte p c u = set_bytes (update u.memory.bytes p c) u

  -- A loop of Rtl/Strings.antt in a program.
  abbrev pub with_rounds : {A : Type 0} → Option A → App W A
  with_rounds none u = out_of_fuel
  with_rounds (some a) u = ok a u

  abbrev pub called : User W → Call → User W
  called u c = record u { calls = u.calls ++ c ∷ [] }

  -- KillMe
  abbrev pub end_program : {A : Type 0} → App W A
  end_program u = ended (called u kill_me)

  module _ (serve : Call → Memory → W → ℕ × Memory × W) where
    abbrev pub system_call : Call → App W ℕ
    system_call c u =
        let (r, m, w) = serve c u.memory u.world in
        ok r (record { memory = m; world = w; calls = u.calls ++ c ∷ [] })
