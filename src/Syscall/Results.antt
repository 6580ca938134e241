-- ===== src/Syscall/Results.antt =====
-- base/ke/syscall.c: which process gets the result of a system call.
use arcos_os.Prelude.{
  ℕ, ◌≡◌, ◌≢◌, ◌∙◌, ap, Bool, true, false, some, if◌then◌else◌, List, ne→==, update,
}
use arcos_os.Prelude.Run.{Cmd, ok}
use arcos_os.Types.{Ptr, null, Process, Status}
use arcos_os.Kernel.{Kernel}
use arcos_os.Ke.Chain.{store-ok}
use arcos_os.Ke.Processes.{set_syscall_result}
use arcos_os.Ps.Programs.{Application}
use arcos_os.Ps.Info.{ProcessInfo}
use arcos_os.Syscall.{
  System, on_kernel, set_result, service_value, service_only, run_service, system_service,
}

-- The process that runs, and the state with a result in a process's V0.
abbrev pub running_process : System → Ptr
running_process s = s.io.kernel.ke.current

abbrev pub with_value : ℕ → Process → Process
with_value result r = record r { context = record r.context { v0 = result } }

abbrev pub with_v0 : System → Ptr → ℕ → System
with_v0 s p result = record s {
  io = record s.io {
    kernel = record s.io.kernel {
      ke = record s.io.kernel.ke {
        procs = update s.io.kernel.ke.procs p (with_value result (s.io.kernel.ke.procs p));
      };
    };
  };
}

store_v0 :
    (s : System) (p : Ptr) (result : ℕ)
    → p ≢ null
    → on_kernel (set_syscall_result p result) s ≡ ok tt (with_v0 s p result)
unfolding set_syscall_result
store_v0 s p result ne = rw (ne→== p null ne, store-ok p (with_value result) s.io.kernel.ke ne)

set_result-with_v0 :
    (early : Bool) (call : Cmd System ℕ) (s s' : System) (result : ℕ)
    → call s ≡ ok result s'
    → (if early then running_process s else running_process s') ≢ null
    → set_result early call s
      ≡ ok tt (with_v0 s' (if early then running_process s else running_process s') result)
unfolding set_result
set_result-with_v0 true call s s' result run ne = rw run (store_v0 s' (running_process s) result ne)
set_result-with_v0 false call s s' result run ne =
    rw run (store_v0 s' (running_process s') result ne)

module _ (fuel : ℕ) (delete_method : Ptr → Ptr → Cmd Kernel (Unit {0})) (apps : List Application)
    (send : ℕ → ℕ → Ptr → ℕ → Cmd Kernel Status) (string format stale : Ptr) (unset : ProcessInfo)
    (early : Bool) (number arg0 arg1 arg2 arg3 : ℕ) (s : System) where
  -- The result of a service that has one goes to the process that ran before the service, where
  -- KeCurrentProcess is read first, and else to the process that runs when the service's function returns.
  -- Everything else is as the function leaves it.
  pub system_service-with_v0 :
      (call : Cmd System ℕ) (s' : System) (result : ℕ)
      → service_value fuel delete_method apps send string format stale unset number arg0 arg1 arg2
          arg3
        ≡ some call
      → call s ≡ ok result s'
      → (if early then running_process s else running_process s') ≢ null
      → system_service fuel delete_method apps send string format stale unset early number arg0 arg1
          arg2 arg3 s
        ≡ ok tt (with_v0 s' (if early then running_process s else running_process s') result)
  unfolding system_service
  system_service-with_v0 call s' result is_call run ne =
      ap
        (λ o.
          run_service early
            (service_only fuel delete_method apps send string format stale unset number arg0) o s)
        is_call
      ∙ set_result-with_v0 early call s s' result run ne
