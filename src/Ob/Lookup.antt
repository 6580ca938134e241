-- ===== src/Ob/Lookup.antt =====
-- base/ob/ob.c: ObOpenObjectByPointer, and ObReferenceObjectByHandle on the handle that it gives.
use arcos_os.Prelude.{
  ℕ, zero, suc, ◌+◌, ◌≤◌, ◌<◌, ◌≡◌, ◌≢◌, refl, sym, ap, ◌∙◌, subst, ◌⊎◌, inl, inr, some, arith,
  ◌==◌, update, update_self, Bool-cases, ==→eq, ==→ne, ne→==, lt→ltb,
}
use arcos_os.Prelude.Run.{ok, Returns, returns}
use arcos_os.Types.{Ptr, null, max_handle_count, success, HandleTableEntry, Process}
use arcos_os.Ke.Chain.{load-ok, store-ok}
use arcos_os.Kernel.{Kernel, ObjectHeader, body_to_header}
use arcos_os.Ob.Objects.{object_magic, inc}
use arcos_os.Ob.Handles.{
  HandleTable, free_slot, set_entry, open_object_by_pointer, reference_object_by_handle, take_slot,
}
use arcos_os.Ob.Balance.{referenced}
use arcos_os.Ob.Access.{header-ok, set_header-ok, assert_object-ok, type_check-ok}

-- A free slot is found where there is one, and no slot before it is free.
free_slot-found :
    (table : HandleTable) (n i j : ℕ)
    → i ≤ j
    → j < i + n
    → (table j).object ≡ null
    → (r : ℕ) × (free_slot table n i ≡ some r) × (r ≤ j) × ((table r).object ≡ null)
unfolding free_slot
free_slot-found table zero i j lo hi free = absurd (omega arith)
free_slot-found table (suc n) i j lo hi free = elim (Bool-cases ((table i).object == null)) [
  | inl hit ↦ (i, rw hit, lo, ==→eq _ null hit)
  | inr miss ↦
      let later : suc i ≤ j = ground (
        arith,
        λ (e : i ≡ j). ==→ne _ null miss (subst (λ k. (table k).object ≡ null) (sym e) free),
      ) in
      let (r, found, le, empty) =
        free_slot-found table n (i + 1) j (omega arith) (omega arith) free in
      (r, rw (miss, found), le, empty)
]

-- A handle whose slot holds the object leads to it.
pub reference_object_by_handle-ok :
    (k : Kernel) (object type : Ptr) (handle : ℕ)
    → object ≢ null
    → k.ke.current ≢ null
    → body_to_header object ≢ null
    → (k.headers (body_to_header object)).magic ≡ object_magic
    → (type ≡ null) ⊎ ((k.headers (body_to_header object)).type ≡ type)
    → handle < max_handle_count
    → ((k.ke.procs k.ke.current).handle_table handle).object ≡ object
    → reference_object_by_handle handle type k ≡ ok (success, object) (referenced k object)
unfolding reference_object_by_handle
reference_object_by_handle-ok k object type handle ne cur_ne h_ne magic typed lt e = rw (
  lt→ltb handle max_handle_count lt,
  load-ok k.ke.current k.ke cur_ne,
  e,
  ne→== object null ne,
  assert_object-ok (body_to_header object) k h_ne magic,
  header-ok (body_to_header object) k h_ne,
  type_check-ok type (k.headers (body_to_header object)).type typed,
  set_header-ok (body_to_header object) (λ r. record r { pointer_count = inc r.pointer_count }) k
      h_ne,
)

module _ (k : Kernel) (object type : Ptr) (ne : object ≢ null) (cur_ne : k.ke.current ≢ null)
    (h_ne : body_to_header object ≢ null)
    (magic : (k.headers (body_to_header object)).magic ≡ object_magic)
    (typed : (type ≡ null) ⊎ ((k.headers (body_to_header object)).type ≡ type)) where
  abbrev table : HandleTable
  table = (k.ke.procs k.ke.current).handle_table

  module _ (attributes i : ℕ) (free : free_slot table max_handle_count 0 ≡ some i) where
    abbrev entry : HandleTableEntry
    entry = record { attributes = attributes; object = object }

    abbrev counted : ObjectHeader → ObjectHeader
    counted r = record r { handle_count = inc r.handle_count; pointer_count = inc r.pointer_count }

    abbrev opened : Kernel
    opened = record k {
      ke = record k.ke {
        procs = update k.ke.procs k.ke.current (set_entry i entry (k.ke.procs k.ke.current));
      };
      headers =
          update k.headers (body_to_header object) (counted (k.headers (body_to_header object)));
    }

    open-opened : open_object_by_pointer object attributes type k ≡ ok (success, i) opened
    unfolding open_object_by_pointer take_slot
    open-opened = rw (
      ne→== object null ne,
      ne→== k.ke.current null cur_ne,
      assert_object-ok (body_to_header object) k h_ne magic,
      header-ok (body_to_header object) k h_ne,
      type_check-ok type (k.headers (body_to_header object)).type typed,
      load-ok k.ke.current k.ke cur_ne,
      free,
      store-ok k.ke.current (set_entry i entry) k.ke cur_ne,
      set_header-ok (body_to_header object) counted _ h_ne,
    )

    abbrev found_header : ObjectHeader
    found_header = opened.headers (body_to_header object)

    header_self : found_header ≡ counted (k.headers (body_to_header object))
    header_self = update_self k.headers (body_to_header object) _

    entry_self : (opened.ke.procs k.ke.current).handle_table i ≡ entry
    entry_self =
        ap (λ (r : Process). r.handle_table i) (update_self k.ke.procs k.ke.current _)
        ∙ update_self (k.ke.procs k.ke.current).handle_table i entry

    reference-opened :
        i < max_handle_count
        → Returns
            (λ r _. (r.0 ≡ success) × (r.1 ≡ object))
            (reference_object_by_handle i type opened)
    reference-opened lt =
        rw
          (reference_object_by_handle-ok opened object type i ne cur_ne h_ne
            (ap (λ (r : ObjectHeader). r.magic) header_self ∙ magic)
            (elim typed [
              | inl e ↦ inl e
              | inr e ↦ inr (ap (λ (r : ObjectHeader). r.type) header_self ∙ e)
            ])
            lt (ap (λ (r : HandleTableEntry). r.object) entry_self))
          (returns (refl, refl))

-- Let the current process have a free slot in its handle table, and let an object have a valid header
-- and the type asked for, or none be asked for. Then ObOpenObjectByPointer of the object succeeds with
-- the handle of a slot that was free, and that does not lie behind the given free one, and
-- ObReferenceObjectByHandle then finds the object by that handle.
pub open-reference :
    (k : Kernel) (object attributes type slot : ℕ)
    → object ≢ null
    → k.ke.current ≢ null
    → body_to_header object ≢ null
    → (k.headers (body_to_header object)).magic ≡ object_magic
    → (type ≡ null) ⊎ ((k.headers (body_to_header object)).type ≡ type)
    → slot < max_handle_count
    → ((k.ke.procs k.ke.current).handle_table slot).object ≡ null
    → Returns
        (λ r k'.
          (r.0 ≡ success)
          × (r.1 ≤ slot)
          × (((k.ke.procs k.ke.current).handle_table r.1).object ≡ null)
          × Returns
              (λ r' _. (r'.0 ≡ success) × (r'.1 ≡ object))
              (reference_object_by_handle r.1 type k'))
        (open_object_by_pointer object attributes type k)
open-reference k object attributes type slot ne cur_ne h_ne magic typed lt empty =
    let (i, found, le, free) =
      free_slot-found (k.ke.procs k.ke.current).handle_table max_handle_count 0 slot (omega arith)
        (omega arith) empty in
    rw (open-opened k object type ne cur_ne h_ne magic typed attributes i found) (
      returns (
        refl,
        le,
        free,
        reference-opened k object type ne cur_ne h_ne magic typed attributes i found (omega arith),
      ))
