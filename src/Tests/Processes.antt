-- ===== src/Tests/Processes.antt =====
-- The theorems on processes at the machine of Tests/Machine.antt, where processes 2 and 4 are in the
-- list of the process type and handle 3 of process 1 leads to process 2.
use arcos_os.Prelude.{
  ℕ, refl, ◌≡◌, ◌+◌, ◌≤◌, ◌<◌, ◌⊎◌, inl, true, false, some, List, [], ◌∷◌, ◌==◌, if◌then◌else◌,
  ==→ne, arith, has,
}
use arcos_os.Prelude.Run.{Cmd, ok, pure, Returns}
use arcos_os.Types.{Ptr, null, success}
use arcos_os.Kernel.{Kernel, body_to_header}
use arcos_os.Ke.Scheduler.{Scheduler}
use arcos_os.Ke.Invariant.{Holds}
use arcos_os.Ke.Priority.{moved}
use arcos_os.Rtl.Text.{Text}
use arcos_os.Rtl.Strings.{copy_string}
use arcos_os.Rtl.Copy.{copy_string-Text}
use arcos_os.Ob.Handles.{kill_process}
use arcos_os.Ob.Kill.{kill_process-none}
use arcos_os.Ob.Balance.{referenced}
use arcos_os.Ps.Lookup.{get_new_pid, reference_process}
use arcos_os.Ps.Process.{copy_args_in}
use arcos_os.Ps.Info.{ProcessInfo, info_of, get_processes_info, change_priority, get_pid, copy_args}
use arcos_os.Ps.Listed.{Listed}
use arcos_os.Ps.Numbers.{get_new_pid-least}
use arcos_os.Ps.Reference.{reference_process-find}
use arcos_os.Ps.Infos.{nth, entry, get_processes_info-described}
use arcos_os.Ps.Changes.{IsHeld, change_priority-referenced, get_field-balanced}
use arcos_os.Ps.Args.{copy_args-Copied}
use arcos_os.Ps.Overlap.{copy_args_in-overlap}
use arcos_os.Tests.Machine.{machine, view, machine-Holds}
use arcos_os.Tests.Messages.{kernel}

-- "help" at 600.
abbrev system : Kernel
system = record kernel {
  ke = record machine {
    procs = λ p. record (machine.procs p) {
      args = if p == 1 then 600 else null;
      handle_table = λ i. record { attributes = 0; object = if i == 3 then 2 else null };
    };
  };
  process_type = 2000;
  headers = λ h. record (kernel.headers h) {
    pointer_count = 1;
    type = 2000;
    next_object_of_type = if h == body_to_header 2 then body_to_header 4 else null;
  };
  types = λ t. record (kernel.types t) { first_object_of_type = body_to_header 2 };
  bytes = λ a.
      if a == 600
      then 104
      else if a == 601
      then 101
      else if a == 602
      then 108
      else if a == 603
      then 112
      else 0;
}

-- The same with the process records of the machine.
abbrev plain : Kernel
plain = record system { ke = machine }

listed : (s : Scheduler) → Listed (record system { ke = s }) (2 ∷ 4 ∷ [])
listed s = record {
  type_ne = ==→ne 2000 0 refl;
  type_header_ne = ==→ne 1968 0 refl;
  type_magic = refl;
  objects = (
    refl,
    (==→ne 2 0 refl, ==→ne (body_to_header 2) 0 refl, refl, refl, refl),
    (refl, (==→ne 4 0 refl, ==→ne (body_to_header 4) 0 refl, refl, refl, refl), refl),
  );
}

held : IsHeld (plain.headers (body_to_header 2))
held = record { handles = omega arith; some_left = omega arith; room = omega arith }

abbrev no_delete : Ptr → Ptr → Cmd Kernel (Unit {0})
no_delete m object = pure tt

abbrev unset : ProcessInfo
unset = info_of (machine.procs 6)

get_new_pid-least_example :
    Returns
      (λ r k'.
        (k' ≡ plain)
        × (1 ≤ r)
        × (has r (1 ∷ 1 ∷ []) ≡ false)
        × ((i : ℕ) → 1 ≤ i → i < r → has i (1 ∷ 1 ∷ []) ≡ true))
      (get_new_pid 5 5 plain)
get_new_pid-least_example =
    get_new_pid-least 5 plain (2 ∷ 4 ∷ []) (listed machine) (omega arith) (omega arith)

reference_process-find_example : reference_process 3 1 plain ≡ ok (success, 2) (referenced plain 2)
reference_process-find_example =
    reference_process-find 3 1 plain (2 ∷ 4 ∷ []) (listed machine) (omega arith)

get_processes_info-described_example :
    get_processes_info 3 2 unset (λ _. unset) plain
    ≡ ok (2, λ i. entry machine.procs unset (nth (2 ∷ 4 ∷ []) i)) plain
get_processes_info-described_example =
    get_processes_info-described 3 2 plain (2 ∷ 4 ∷ []) unset (λ _. unset) (listed machine)
      (omega arith)

change_priority-referenced_example :
    Returns
      (λ status k'.
        (status ≡ success)
        × Holds k'.ke (moved view 2 5 9)
        × (k'.headers ≡ (referenced plain 2).headers))
      (change_priority 3 1 9 plain)
change_priority-referenced_example =
    change_priority-referenced 3 1 9 5 plain (2 ∷ 4 ∷ []) 2 view (listed machine) (omega arith) refl
      (omega arith) machine-Holds (omega arith) (omega arith) refl (omega arith)

get_field-balanced_example : get_pid 3 no_delete 0 3 system ≡ ok (success, 1) system
get_field-balanced_example =
    get_field-balanced 3 no_delete (λ r. r.pid) 0 3 system 2 (listed system.ke).objects.1 held
      (==→ne 1 0 refl) (omega arith) refl

abbrev help : List ℕ
help = 104 ∷ 101 ∷ 108 ∷ 112 ∷ []

copy_args-Copied_example :
    Returns
      (λ r k'.
        (k' ≡ record system { bytes = k'.bytes })
        × (r ≡ 2)
        × ((i : ℕ) → i < r → k'.bytes (700 + i) ≡ system.bytes (600 + i))
        × (k'.bytes (700 + r) ≡ 0)
        × ((a : Ptr) → (a < 700) ⊎ (700 + r < a) → k'.bytes a ≡ system.bytes a))
      (copy_args 5 700 3 system)
copy_args-Copied_example =
    copy_args-Copied 5 3 700 system help (==→ne 1 0 refl) (==→ne 600 0 refl)
      (refl, (refl, (refl, (refl, refl))))
      (==→ne 104 0 refl, (==→ne 101 0 refl, (==→ne 108 0 refl, (==→ne 112 0 refl, tt))))
      (inl (omega arith)) (omega arith)

copy_args_in-overlap_example :
    Returns
      (λ _ k'.
        Text k'.bytes 4096 help × (k'.free_mem_pointer ≡ 4100) × (k'.bytes k'.free_mem_pointer ≡ 0))
      (copy_args_in 5 2 600 system)
copy_args_in-overlap_example =
    copy_args_in-overlap 5 2 600 system help (==→ne 2 0 refl) (==→ne 600 0 refl)
      (refl, (refl, (refl, (refl, refl))))
      (==→ne 104 0 refl, (==→ne 101 0 refl, (==→ne 108 0 refl, (==→ne 112 0 refl, tt))))
      (omega arith) (omega arith) (omega arith) (omega arith) (omega arith) (omega arith)

copy_string-Text_example :
    (m' : Ptr → ℕ) × (copy_string 5 700 600 system.bytes ≡ some m')
    × Text m' 700 help
    × ((a : Ptr) → (a < 700) ⊎ (704 < a) → m' a ≡ system.bytes a)
copy_string-Text_example =
    copy_string-Text 5 700 600 system.bytes help (refl, (refl, (refl, (refl, refl))))
      (==→ne 104 0 refl, (==→ne 101 0 refl, (==→ne 108 0 refl, (==→ne 112 0 refl, tt))))
      (inl (omega arith)) (omega arith)

-- Process 1 kills process 4, whose handle 3 stays open.
abbrev crowded : Kernel
crowded = record system {
  ke = record machine {
    procs = λ p. record (machine.procs p) {
      handle_table = λ i. record {
        attributes = 0;
        object = if p == 4 then (if i == 3 then 2 else null) else null;
      };
    };
  };
}

kill_process-none_example : kill_process 3 no_delete 4 crowded ≡ ok tt crowded
kill_process-none_example =
    kill_process-none 3 no_delete crowded 4 (==→ne 4 0 refl) (==→ne 1 0 refl) (λ i lt. refl)
