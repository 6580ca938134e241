-- ===== src/Ob/Handles.antt =====
-- base/ob/ob.c: handle tables, and waiting for an object to be signalled.
use arcos_os.Prelude.{
  ℕ, zero, suc, ◌+◌, false, not, ◌&&◌, Option, none, some, ◌==◌, ltb, if◌then◌else◌, update,
}
use arcos_os.Prelude.Run.{Cmd, pure, modify, assert, ◌>>=◌, ◌>>◌}
use arcos_os.Types.{
  Ptr, null, Process, HandleTableEntry, max_handle_count, Status, success, object_type_mismatch,
  invalid_handle, handle_limit_reached, no_memory,
}
use arcos_os.Ke.Scheduler.{load, store}
use arcos_os.Ke.Timers.{block_process}
use arcos_os.Kernel.{
  Kernel, WaitQueueEntry, in_ke, current_process, header, set_header, body_to_header, deref,
}
use arcos_os.Mm.{mm_alloc}
use arcos_os.Ob.Objects.{assert_object, inc, dec, is_inherit, dereference_object}

abbrev pub HandleTable : Type 0
HandleTable = ℕ → HandleTableEntry

abbrev pub process : Ptr → Cmd Kernel Process
process p = in_ke (load p)

abbrev pub set_handle_table : HandleTable → Process → Process
set_handle_table t r = record r { handle_table = t }

-- `table[i] = e`
abbrev pub set_entry : ℕ → HandleTableEntry → Process → Process
set_entry i e r = record r { handle_table = update r.handle_table i e }

-- `table[i].Object = object`
abbrev pub set_entry_object : ℕ → Ptr → Process → Process
set_entry_object i object r = set_entry i (record (r.handle_table i) { object = object }) r

-- The first of the `n` slots from `i` on that holds no object.
unfoldable pub free_slot : HandleTable → ℕ → ℕ → Option ℕ
free_slot table zero i = none
free_slot table (suc n) i =
    let rest = free_slot table n (i + 1) in if (table i).object == null then some i else rest

-- The `for` loop of ObInitProcess: slots `i` to `i + n - 1` of the new process.
unfoldable pub inherit_handles : ℕ → ℕ → Ptr → Ptr → Cmd Kernel (Unit {0})
inherit_handles zero i parent new = pure tt
inherit_handles (suc n) i parent new = do
  inherited ←
      (if parent == null then pure false else do
        p ← process parent
        pure (not ((p.handle_table i).object == null) && is_inherit (p.handle_table i).attributes))
  if inherited
      then (do
        p ← process parent
        in_ke (store new (set_entry i (p.handle_table i)))
        set_header (body_to_header (p.handle_table i).object) λ r. record r {
          handle_count = inc r.handle_count;
          pointer_count = inc r.pointer_count;
        })
      else in_ke (store new (set_entry_object i null))
  inherit_handles n (i + 1) parent new

unfoldable pub init_process : Ptr → Ptr → Cmd Kernel Status
init_process parent new = do
  assert (not (new == null))
  inherit_handles max_handle_count 0 parent new
  pure success

-- ObOpenObjectByPointer at the slot that its loop has found, and behind the loop.
unfoldable pub take_slot : Ptr → Ptr → HandleTableEntry → Option ℕ → Cmd Kernel (Status × ℕ)
take_slot cur h e none = pure (handle_limit_reached, 0)
take_slot cur h e (some i) = do
  in_ke (store cur (set_entry i e))
  set_header h
      λ r. record r { handle_count = inc r.handle_count; pointer_count = inc r.pointer_count }
  pure (success, i)

-- ObOpenObjectByPointer; the second component is what is stored in `*Handle`. A null `type` asks
-- for no check.
unfoldable pub open_object_by_pointer : Ptr → ℕ → Ptr → Cmd Kernel (Status × ℕ)
open_object_by_pointer object handle_attributes type = do
  assert (not (object == null))
  cur ← current_process
  assert (not (cur == null))
  let h = body_to_header object
  assert_object h
  r ← header h
  if not (type == null) && not (r.type == type) then pure (object_type_mismatch, 0) else do
    p ← process cur
    take_slot cur h (record { attributes = handle_attributes; object = object })
        (free_slot p.handle_table max_handle_count 0)

-- ObReferenceObjectByHandle; the second component is what is stored in `*Object`.
unfoldable pub reference_object_by_handle : ℕ → Ptr → Cmd Kernel (Status × Ptr)
reference_object_by_handle handle type =
    if not (ltb handle max_handle_count) then pure (invalid_handle, null) else do
      cur ← current_process
      p ← process cur
      let object = (p.handle_table handle).object
      if object == null then pure (invalid_handle, null) else do
        let h = body_to_header object
        assert_object h
        r ← header h
        if not (type == null) && not (r.type == type) then pure (object_type_mismatch, null) else do
          set_header h λ r. record r { pointer_count = inc r.pointer_count }
          pure (success, object)

abbrev pub wait_entry : Ptr → Cmd Kernel WaitQueueEntry
wait_entry = deref λ k. k.wait_entries

-- sizeof(OB_WAIT_QUEUE_ENTRY)
abbrev pub wait_entry_size : ℕ
wait_entry_size = 8

module _ (fuel : ℕ) (delete_method : Ptr → Ptr → Cmd Kernel (Unit {0})) where
  unfoldable pub close_handle : ℕ → Cmd Kernel Status
  close_handle handle = if not (ltb handle max_handle_count) then pure invalid_handle else do
    cur ← current_process
    p ← process cur
    let object = (p.handle_table handle).object
    if object == null then pure invalid_handle else do
      let h = body_to_header object
      assert_object h
      set_header h λ r. record r { handle_count = dec r.handle_count }
      dereference_object fuel delete_method object
      in_ke (store cur (set_entry_object handle null))
      pure success

  -- The `for` loop of ObKillProcess over slots `i` to `i + n - 1`: it looks at the table of `p`,
  -- and ObCloseHandle closes the handle in the table of the current process.
  unfoldable pub close_handles : ℕ → ℕ → Ptr → Cmd Kernel (Unit {0})
  close_handles zero i p = pure tt
  close_handles (suc n) i p = do
    r ← process p
    if (r.handle_table i).object == null then pure tt else (do _ ← close_handle i; pure tt)
    close_handles n (i + 1) p

  unfoldable pub kill_process : Ptr → Cmd Kernel (Unit {0})
  kill_process p = do assert (not (p == null)); close_handles max_handle_count 0 p

  unfoldable pub wait_for_single_object : ℕ → Cmd Kernel Status
  wait_for_single_object handle = do
    (status, object) ← reference_object_by_handle handle null
    elim status [
      | success ↦ (do
        let h = body_to_header object
        assert_object h
        r ← header h
        if not (r.signal_state == 0)
            then (do dereference_object fuel delete_method object; pure success)
            else (do
              entry ← mm_alloc wait_entry_size
              if entry == null
                  then (do dereference_object fuel delete_method object; pure no_memory)
                  else (do
                    cur ← current_process
                    modify λ k. record k {
                      wait_entries =
                          update k.wait_entries entry
                            (record { process = cur; next = r.wait_queue });
                    }
                    set_header h λ r. record r { wait_queue = entry }
                    in_ke (block_process fuel)
                    dereference_object fuel delete_method object
                    pure success)))
      | other ↦ pure other
    ]
