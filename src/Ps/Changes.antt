-- ===== src/Ps/Changes.antt =====
-- base/ps/ps.c: the references that PsChangePriority, PsSupervise and the functions on handles take.
use arcos_os.Prelude.{
  ℕ, ◌+◌, ◌≤◌, ◌<◌, ◌≡◌, ◌≢◌, refl, ◌∙◌, sym, ap, inl, inr, true, none, some, List, [], ◌∷◌, length,
  has, arith, ◌==◌, update, Bool-cases, ne→==, le→ltb, subst,
}
use arcos_os.Prelude.Run.{Cmd, ok, Returns, returns, Returns-bind, Returns-within}
use arcos_os.Types.{Ptr, null, ulong_mod, max_handle_count, Process, success}
use arcos_os.Kernel.{Kernel, ObjectHeader, body_to_header}
use arcos_os.Ke.Chain.{load-ok, store-ok}
use arcos_os.Ke.Invariant.{View, Holds, IsLevel}
use arcos_os.Ke.Priority.{moved, change_process_priority-ready}
use arcos_os.Ob.Balance.{referenced, dereference_object-referenced}
use arcos_os.Ob.Lookup.{reference_object_by_handle-ok}
use arcos_os.Ps.Info.{change_priority, supervise, get_field}
use arcos_os.Ps.Listed.{IsObject, Objects, Listed, find_pid}
use arcos_os.Ps.Reference.{reference_result, reference_process-find}

some_injective : {a b : Ptr} → some a ≡ some b → a ≡ b
some_injective {a} e = ap (λ o. elim o [ none ↦ a | some x ↦ x ]) e

-- A process that is found is a valid object.
pub find_pid-IsObject :
    (k : Kernel) (m : Ptr → ObjectHeader) (type pid p : Ptr) (ps : List Ptr) (first : Ptr)
    → Objects m type first ps
    → find_pid k pid ps ≡ some p
    → IsObject m type p
find_pid-IsObject k m type pid p [] first o e = cc
find_pid-IsObject k m type pid p (q ∷ ps) first o e =
    elim (Bool-cases ((k.ke.procs q).pid == pid)) [
      | inl hit ↦
          let found : find_pid k pid (q ∷ ps) ≡ some q = rw hit in
          subst (IsObject m type) (some_injective (sym found ∙ e)) o.1
      | inr miss ↦
          let on : find_pid k pid (q ∷ ps) ≡ find_pid k pid ps = rw miss in
          find_pid-IsObject k m type pid p ps (m (body_to_header q)).next_object_of_type o.2
            (sym on ∙ e)
    ]

-- PsChangePriority of the number of a ready process, with a new priority below 32, moves the process
-- to the end of the queue of its new priority and succeeds, but the reference that it has taken to the
-- process is still counted when it returns: no call gives it back. The loops need one round more than
-- there are processes, and one for each entry of the queue.
pub change_priority-referenced :
    (fuel pid new i : ℕ) (k : Kernel) (ps : List Ptr) (p : Ptr) (v : View)
    → Listed k ps
    → length ps < fuel
    → find_pid k pid ps ≡ some p
    → 0 < pid
    → Holds k.ke v
    → IsLevel new
    → IsLevel i
    → has p (v.ready i) ≡ true
    → length (v.ready i) ≤ fuel
    → Returns
        (λ status k'.
          (status ≡ success)
          × Holds k'.ke (moved v p i new)
          × (k'.headers ≡ (referenced k p).headers))
        (change_priority fuel pid new k)
unfolding change_priority
change_priority-referenced fuel pid new i k ps p v l f found some_pid h level li on g =
    let found_run = reference_process-find fuel pid k ps l f ∙ ap (reference_result k) found in
    let object = find_pid-IsObject k k.headers k.process_type pid p ps _ l.objects found in
    rw
      (
        le→ltb pid 1 (omega arith),
        le→ltb 31 new (omega (arith, level)),
        found_run,
        ne→== p null object.0,
      )
      (Returns-bind
        {P = λ _ k'. Holds k'.ke (moved v p i new) × (k'.headers ≡ (referenced k p).headers)}
        (Returns-within (λ s. record (referenced k p) { ke = s })
          (change_process_priority-ready fuel h p new level i li on g)
          (λ _ s' moved_to. (moved_to.0, refl)))
        (λ _ k' done. returns (refl, done.0, done.1)))

-- The counts of an object that is referenced, and on which another reference does not overflow.
pub record IsHeld (r : ObjectHeader) : Type 0 where
  pub handles : r.handle_count ≤ r.pointer_count
  pub some_left : 0 < r.pointer_count
  pub room : r.pointer_count + 1 < ulong_mod

-- PsSupervise of the number of a listed process whose reference count is sound stores the supervisor in
-- the process and changes nothing else: the reference that it has taken is given back. The loop needs
-- one round more than there are processes.
supervise-balanced :
    (fuel : ℕ) (delete_method : Ptr → Ptr → Cmd Kernel (Unit {0})) (supervisor pid : ℕ) (k : Kernel)
    (ps : List Ptr) (p : Ptr)
    → Listed k ps
    → length ps < fuel
    → find_pid k pid ps ≡ some p
    → IsHeld (k.headers (body_to_header p))
    → supervise fuel delete_method supervisor pid k
      ≡ ok success (record k {
        ke = record k.ke {
          procs = update k.ke.procs p (record (k.ke.procs p) { supervisor = supervisor });
        };
      })
unfolding supervise
supervise-balanced fuel delete_method supervisor pid k ps p l f found held =
    let found_run = reference_process-find fuel pid k ps l f ∙ ap (reference_result k) found in
    let object = find_pid-IsObject k k.headers k.process_type pid p ps _ l.objects found in
    let k' : Kernel = record k {
      ke = record k.ke {
        procs = update k.ke.procs p (record (k.ke.procs p) { supervisor = supervisor });
      };
    } in
    rw (
      found_run,
      store-ok p (λ r. record r { supervisor = supervisor }) k.ke object.0,
      ne→== p null object.0,
      dereference_object-referenced fuel delete_method k' p object.0 object.1 object.3 held.handles
          held.some_left held.room,
    )

-- The functions that read a field of a process by a handle (PsGetExitStatus, PsGetPriority, PsGetState,
-- PsGetPid), on a handle of the current process whose slot holds a process with a sound reference
-- count, store the field's value and leave the kernel as it was.
pub get_field-balanced :
    {A : Type 0} (fuel : ℕ) (delete_method : Ptr → Ptr → Cmd Kernel (Unit {0}))
    (field : Process → A) (old : A) (handle : ℕ) (k : Kernel) (p : Ptr)
    → IsObject k.headers k.process_type p
    → IsHeld (k.headers (body_to_header p))
    → k.ke.current ≢ null
    → handle < max_handle_count
    → ((k.ke.procs k.ke.current).handle_table handle).object ≡ p
    → get_field fuel delete_method field old handle k ≡ ok (success, field (k.ke.procs p)) k
unfolding get_field
get_field-balanced fuel delete_method field old handle k p object held cur_ne lt holds = rw (
  reference_object_by_handle-ok k p k.process_type handle object.0 cur_ne object.1 object.3
      (inr object.4) lt holds,
  load-ok p k.ke object.0,
  ne→== p null object.0,
  dereference_object-referenced fuel delete_method k p object.0 object.1 object.3 held.handles
      held.some_left held.room,
)
