-- ===== src/Ob/Kill.antt =====
-- base/ob/ob.c: ObKillProcess, called by one process for another.
use arcos_os.Prelude.{
  ℕ, zero, suc, ◌+◌, ◌≤◌, ◌<◌, ◌≡◌, ◌≢◌, refl, inl, inr, arith, ◌==◌, ne→==, lt→ltb, Bool-cases,
}
use arcos_os.Prelude.Run.{Cmd, ok}
use arcos_os.Types.{Ptr, null, max_handle_count, invalid_handle}
use arcos_os.Kernel.{Kernel}
use arcos_os.Ke.Chain.{load-ok}
use arcos_os.Ob.Handles.{close_handle, close_handles, kill_process}

module _ (fuel : ℕ) (delete_method : Ptr → Ptr → Cmd Kernel (Unit {0})) (k : Kernel) (p : Ptr)
    (ne : p ≢ null) (cur_ne : k.ke.current ≢ null)
    (none_open : (i : ℕ)
      → i < max_handle_count
      → ((k.ke.procs k.ke.current).handle_table i).object ≡ null) where
  close_handle-none :
      (i : ℕ) → i < max_handle_count → close_handle fuel delete_method i k ≡ ok invalid_handle k
  unfolding close_handle
  close_handle-none i lt =
      rw (lt→ltb i max_handle_count lt, load-ok k.ke.current k.ke cur_ne, none_open i lt)

  close_handles-none :
      (n i : ℕ) → i + n ≤ max_handle_count → close_handles fuel delete_method n i p k ≡ ok tt k
  unfolding close_handles
  close_handles-none zero i le = refl
  close_handles-none (suc n) i le =
      let later = close_handles-none n (i + 1) (omega arith) in
      rw (load-ok p k.ke ne) (elim (Bool-cases (((k.ke.procs p).handle_table i).object == null)) [
        | inl closed ↦ rw closed later
        | inr in_use ↦ rw (in_use, close_handle-none i (omega arith)) later
      ])

  -- ObKillProcess, called by a process without open handles, for any process, changes nothing: the
  -- handles of the other process stay open, because each is closed in the table of the caller.
  pub kill_process-none : kill_process fuel delete_method p k ≡ ok tt k
  unfolding kill_process
  kill_process-none = rw (ne→== p null ne) (close_handles-none max_handle_count 0 (omega arith))
