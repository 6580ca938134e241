-- ===== src/Ob/Create.antt =====
-- base/ob/ob.c: what creating an object does where memory does not run out, and handing handles on without a parent.
use arcos_os.Prelude.{
  ℕ, zero, suc, ◌+◌, ◌%◌, ◌<◌, arith, ◌≡◌, ◌≢◌, refl, sym, ap, update, update_self, update_same,
  update_twice, ne→==,
}
use arcos_os.Prelude.Run.{ok}
use arcos_os.Types.{Ptr, null, ulong_mod, success}
use arcos_os.Kernel.{Kernel, ObjectHeader, ObjectType, header_to_body}
use arcos_os.Mm.{mm_alloc, align_memory}
use arcos_os.Ke.Chain.{store-ok}
use arcos_os.Ob.Objects.{
  create_object, create_object_type, fresh_header, set_next_of_type, set_first_of_type,
}
use arcos_os.Ob.Handles.{inherit_handles, set_entry_object}

-- Without a parent, the slots of a table without handles stay as they are.
pub inherit_handles-none :
    (n i : ℕ) (q : Ptr) (k : Kernel)
    → q ≢ null
    → ((j : ℕ) → ((k.ke.procs q).handle_table j).object ≡ null)
    → inherit_handles n i null q k ≡ ok tt k
unfolding inherit_handles
inherit_handles-none zero i q k ne none = refl
inherit_handles-none (suc n) i q k ne none =
    let entry = ap (λ o. record ((k.ke.procs q).handle_table i) { object = o }) (sym (none i)) in
    let table = update_same (k.ke.procs q).handle_table i _ entry in
    let same =
      update_same k.ke.procs q _ (ap (λ t. record (k.ke.procs q) { handle_table = t }) table) in
    rw (store-ok q (set_entry_object i null) k.ke ne, same)
      (inherit_handles-none n (i + 1) q k ne none)

-- ObCreateObject, where memory does not run out.
abbrev pub created_at : Kernel → ℕ → Kernel
created_at k next = record k {
  headers =
      update k.headers k.free_mem_pointer (fresh_header null 1 (k.headers k.free_mem_pointer));
  free_mem_pointer = next;
}

pub create_object-untyped :
    (size next : ℕ) (k : Kernel)
    → k.free_mem_pointer ≢ null
    → align_memory ((k.free_mem_pointer + (32 + size) % ulong_mod) % ulong_mod) ≡ next
    → create_object null 1 size k
      ≡ ok (success, header_to_body k.free_mem_pointer) (created_at k next)
unfolding create_object mm_alloc
create_object-untyped size next k ne e =
    rw (e, ne→== k.free_mem_pointer null ne, ne→== k.free_mem_pointer null ne)

abbrev pub typed_header : Kernel → Ptr → ObjectHeader
typed_header k type =
    set_next_of_type (k.types type).first_object_of_type
      (fresh_header type 0 (k.headers k.free_mem_pointer))

abbrev pub listed_at : Kernel → Ptr → ℕ → Kernel
listed_at k type next = record k {
  headers = update k.headers k.free_mem_pointer (typed_header k type);
  types = update k.types type (set_first_of_type k.free_mem_pointer (k.types type));
  free_mem_pointer = next;
}

pub create_object-typed :
    (type : Ptr) (size next : ℕ) (k : Kernel)
    → type ≢ null
    → k.free_mem_pointer ≢ null
    → align_memory ((k.free_mem_pointer + (32 + size) % ulong_mod) % ulong_mod) ≡ next
    → create_object type 0 size k
      ≡ ok (success, header_to_body k.free_mem_pointer) (listed_at k type next)
unfolding create_object mm_alloc
create_object-typed type size next k type_ne ne e =
    let h : Ptr = k.free_mem_pointer in
    rw (
      e,
      ne→== h null ne,
      ne→== h null ne,
      ne→== type null type_ne,
      ne→== type null type_ne,
      ne→== h null ne,
      ne→== type null type_ne,
      update_self k.headers h (fresh_header type 0 (k.headers h)),
      update_twice k.headers h (fresh_header type 0 (k.headers h)) (typed_header k type),
    )

-- ObCreateObjectType, where memory does not run out.
abbrev pub type_object_at : ℕ → Kernel → ObjectType
type_object_at name k = record (k.types (k.free_mem_pointer + 32)) {
  name = name;
  first_object_of_type = null;
  dump = null;
  delete = null;
  next_type_object = k.type_list_head;
}

abbrev pub with_type_at : ℕ → Kernel → Kernel
with_type_at name k = record k {
  headers =
      update k.headers k.free_mem_pointer (fresh_header null 1 (k.headers k.free_mem_pointer));
  types = update k.types (k.free_mem_pointer + 32) (type_object_at name k);
  type_list_head = k.free_mem_pointer + 32;
  free_mem_pointer = k.free_mem_pointer + 52;
}

module _ (name : ℕ) (k : Kernel) (named : name ≢ 0) (aligned : k.free_mem_pointer % 4 ≡ 0)
    (some_memory : k.free_mem_pointer ≢ null) (room : k.free_mem_pointer + 52 < ulong_mod) where
  next_free : align_memory ((k.free_mem_pointer + 52) % ulong_mod) ≡ k.free_mem_pointer + 52
  unfolding align_memory
  next_free = omega (arith, aligned, room)

  type_body : (k.free_mem_pointer + 32) % ulong_mod ≡ k.free_mem_pointer + 32
  type_body = omega (arith, room)

  pub create_object_type-with_type :
      create_object_type name null null k
      ≡ ok (success, k.free_mem_pointer + 32) (with_type_at name k)
  unfolding create_object_type
  create_object_type-with_type = rw (
    ne→== name 0 named,
    create_object-untyped 20 (k.free_mem_pointer + 52) k some_memory next_free,
    type_body,
    ne→== (k.free_mem_pointer + 32) null (λ e. omega (arith, e)),
  )
