-- ===== src/Boot.antt =====
-- base/ke/init.c: KeInitialize, which starts the components in their order. The set-up of the devices by
-- HalInitialize and the idle loop at the end have no part in the model. CreateProcess, which enters the
-- kernel by a system call, is the parameter `create_shell`, with what it leaves in testShell;
-- testScrollerProcess has the value `stale` where PsCreateProcess does not store a handle.
pub mod Ready
use arcos_os.Prelude.{ℕ, not, ◌==◌, List}
use arcos_os.Prelude.Run.{Cmd, pure, get, modify, assert, ◌>>=◌, ◌>>◌}
use arcos_os.Types.{Ptr, null, Status, success}
use arcos_os.Kernel.{Kernel, current_process}
use arcos_os.Mm.{mm_initialize}
use arcos_os.Mess.WaitQueue.{mess_initialize}
use arcos_os.Ob.Handles.{close_handle}
use arcos_os.Io.State.{Io, on_kernel}
use arcos_os.Io.Files.{io_initialize}
use arcos_os.Ps.Process.{ps_initialize, create_process}
use arcos_os.Ps.Programs.{Application}
use arcos_os.Kd.Console.{Literals, kd_initialize, kd_print}
use arcos_os.Syscall.{on_io}
use arcos_os.Hal.{Machine, timer_ticks, on_system, in_kernel, on_console}

-- The part from MmInitialize to MessInitialize; the statuses are not looked at.
unfoldable pub initialize_components : Ptr → Ptr → Cmd Io (Unit {0})
initialize_components first_usable idle_name = do
  on_kernel (mm_initialize first_usable)
  _ ← io_initialize
  on_kernel (ps_initialize idle_name)
  cur ← on_kernel current_process
  assert (not (cur == null))
  _ ← on_kernel mess_initialize
  pure tt

abbrev handle_or : ℕ → Status → ℕ → ℕ
handle_or stale success handle = handle
handle_or stale other handle = stale

-- KeInitialize up to KeRestoreInterrupts
unfoldable ke_initialize :
    (fuel : ℕ) (delete_method : Ptr → Ptr → Cmd Kernel (Unit {0})) (apps : List Application)
    (texts : Literals) (command_buffer first_usable idle_name greeting scroller : Ptr)
    (argument : ℕ → ℕ) (stale : ℕ)
    → Cmd Machine ℕ
    → Cmd Machine (Unit {0})
ke_initialize fuel delete_method apps texts command_buffer first_usable idle_name greeting scroller
      argument stale create_shell =
    do
      modify λ m. record m { timer = timer_ticks }
      on_console (kd_initialize fuel texts)
      on_system (on_io (initialize_components first_usable idle_name))
      on_console (kd_print fuel texts command_buffer argument greeting)
      (status, handle) ← in_kernel (create_process fuel delete_method apps scroller 10 null)
      _ ← in_kernel (close_handle fuel delete_method (handle_or stale status handle))
      shell ← create_shell
      _ ← in_kernel (close_handle fuel delete_method shell)
      pure tt
