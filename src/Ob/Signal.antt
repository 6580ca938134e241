-- ===== src/Ob/Signal.antt =====
-- base/ob/ob.c: ObSignalObject. The loop over the wait queue has `rounds` rounds. MmFree does nothing,
-- so that the order of the read of Next and the free does not matter here.
use arcos_os.Prelude.{ℕ, zero, suc, ◌==◌, if◌then◌else◌}
use arcos_os.Prelude.Run.{Cmd, out_of_fuel, pure, ◌>>=◌, ◌>>◌}
use arcos_os.Types.{Ptr, null}
use arcos_os.Kernel.{Kernel, header, set_header, body_to_header}
use arcos_os.Mm.{mm_free}
use arcos_os.Ob.Objects.{assert_object}
use arcos_os.Ob.Handles.{wait_entry}
use arcos_os.Ke.Processes.{resume_process}

unfoldable pub wake_waiters : ℕ → ℕ → Ptr → Cmd Kernel (Unit {0})
wake_waiters fuel zero entry = λ _. out_of_fuel
wake_waiters fuel (suc rounds) entry = if entry == null then pure tt else do
  e ← wait_entry entry
  resume_process fuel e.process
  e ← wait_entry entry
  mm_free entry
  wake_waiters fuel rounds e.next

unfoldable pub signal_object : ℕ → Ptr → Cmd Kernel (Unit {0})
signal_object fuel object = do
  let h = body_to_header object
  assert_object h
  set_header h λ r. record r { signal_state = 1 }
  r ← header h
  wake_waiters fuel fuel r.wait_queue
  set_header h λ r. record r { wait_queue = null }
