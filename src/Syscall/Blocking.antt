-- ===== src/Syscall/Blocking.antt =====
-- base/ke/syscall.c: which process gets the result of a system call that blocks, in the case of
-- ReceiveFirst.
use arcos_os.Prelude.{ℕ, Bool, List}
use arcos_os.Prelude.Run.{Cmd}
use arcos_os.Types.{Ptr, Status}
use arcos_os.Kernel.{Kernel}
use arcos_os.Ke.Scheduler.{Scheduler}
use arcos_os.Ps.Programs.{Application}
use arcos_os.Ps.Info.{ProcessInfo}
use arcos_os.Syscall.{System}

module _ (fuel : ℕ) (delete_method : Ptr → Ptr → Cmd Kernel (Unit {0})) (apps : List Application)
    (send : ℕ → ℕ → Ptr → ℕ → Cmd Kernel Status) (string format stale_word : Ptr)
    (unset : ProcessInfo) (early : Bool) (timeout arg1 arg2 arg3 : ℕ) (s : System) where
  abbrev k : Kernel
  k = s.io.kernel
