-- ===== src/Ob/Objects.antt =====
-- base/ob/ob.c: creating, referencing and deleting objects. A type's Delete method is a function
-- that the creator of the type supplies: `delete_method m object` is the call of the one at the
-- address `m`. A `while` loop over a list has `fuel` rounds.
use arcos_os.Prelude.{ℕ, zero, suc, ◌+◌, ◌-◌, ◌/◌, ◌%◌, Bool, not, ◌&&◌, ◌==◌, ltb, if◌then◌else◌}
use arcos_os.Prelude.Run.{
  Cmd, out_of_fuel, pure, get, modify, assert, ke_bug_check, ◌>>=◌, ◌>>◌, object_not_in_list,
}
use arcos_os.Types.{
  Ptr, null, ulong_mod, Status, success, insufficient_resources, object_type_mismatch,
}
use arcos_os.Kernel.{
  Kernel, ObjectHeader, ObjectType, header, set_header, object_type, set_object_type, body_offset,
  body_to_header, header_to_body,
}
use arcos_os.Mm.{mm_alloc, mm_free}

abbrev pub object_magic : ℕ
object_magic = 0x0BEC0BEC

-- sizeof(OBJECT_TYPE): five words.
abbrev pub object_type_size : ℕ
object_type_size = 20

-- `attributes & OBJ_PERMANENT` and `attributes & OBJ_INHERIT`
abbrev pub is_permanent : ℕ → Bool
is_permanent attributes = attributes % 2 == 1

abbrev pub is_inherit : ℕ → Bool
is_inherit attributes = attributes / 2 % 2 == 1

-- ASSERT_OBJECT
abbrev pub assert_object : Ptr → Cmd Kernel (Unit {0})
assert_object h = do r ← header h; assert (r.magic == object_magic)

-- ++ and -- on a ULONG
abbrev pub inc : ℕ → ℕ
inc n = (n + 1) % ulong_mod

abbrev pub dec : ℕ → ℕ
dec n = (n + ulong_mod - 1) % ulong_mod

abbrev pub set_next_of_type : Ptr → ObjectHeader → ObjectHeader
set_next_of_type q r = record r { next_object_of_type = q }

abbrev pub set_first_of_type : Ptr → ObjectType → ObjectType
set_first_of_type q t = record t { first_object_of_type = q }

abbrev pub fresh_header : Ptr → ℕ → ObjectHeader → ObjectHeader
fresh_header type attributes r = record r {
  magic = object_magic;
  handle_count = 0;
  pointer_count = 1;
  signal_state = 0;
  wait_queue = null;
  attributes = attributes;
  type = type;
}

-- The second component is what is stored in `*Object`.
unfoldable pub create_object : Ptr → ℕ → ℕ → Cmd Kernel (Status × Ptr)
create_object type attributes body_size = do
  h ← mm_alloc ((body_offset + body_size) % ulong_mod)
  if h == null then pure (insufficient_resources, null) else do
    set_header h (fresh_header type attributes)
    if type == null then pure tt else (do
      t ← object_type type
      set_header h (set_next_of_type t.first_object_of_type)
      set_object_type type (set_first_of_type h))
    pure (success, header_to_body h)

unfoldable pub create_object_type : ℕ → Ptr → Ptr → Cmd Kernel (Status × Ptr)
create_object_type type_name dump_method delete_method = do
  assert (not (type_name == 0))
  (status, body) ← create_object null 1 object_type_size
  elim status [
    | success ↦ (do
      head ← get λ k. k.type_list_head
      set_object_type body λ t. record t {
        name = type_name;
        first_object_of_type = null;
        dump = dump_method;
        delete = delete_method;
        next_type_object = head;
      }
      modify λ k. record k { type_list_head = body }
      pure (success, body))
    | other ↦ pure (other, null)
  ]

-- ObReferenceObject; a null `type` asks for no check.
unfoldable pub reference_object : Ptr → Ptr → Cmd Kernel Status
reference_object object type = do
  assert (not (object == null))
  let h = body_to_header object
  assert_object h
  r ← header h
  if not (type == null) && not (r.type == type)
      then pure object_type_mismatch
      else do set_header h λ r. record r { pointer_count = inc r.pointer_count }; pure success

-- The `while` loop of ObpUnlinkObjectFromTypeList.
unfoldable pub unlink_behind : ℕ → Ptr → Ptr → Cmd Kernel (Unit {0})
unlink_behind zero current h = λ _. out_of_fuel
unlink_behind (suc fuel) current h = if current == null then ke_bug_check object_not_in_list else do
  c ← header current
  let rest = unlink_behind fuel c.next_object_of_type h
  if c.next_object_of_type == h
      then (do r ← header h; set_header current (set_next_of_type r.next_object_of_type))
      else rest

unfoldable pub unlink_object_from_type_list : ℕ → Ptr → Cmd Kernel (Unit {0})
unlink_object_from_type_list fuel h = do
  assert_object h
  r ← header h
  assert (not (r.type == null))
  t ← object_type r.type
  if t.first_object_of_type == h
      then set_object_type r.type (set_first_of_type r.next_object_of_type)
      else unlink_behind fuel t.first_object_of_type h

-- ObGetFirstObjectOfType
unfoldable pub get_first_object_of_type : Ptr → Cmd Kernel Ptr
get_first_object_of_type type = do
  assert (not (type == null))
  assert_object (body_to_header type)
  t ← object_type type
  pure (if t.first_object_of_type == null then null else header_to_body t.first_object_of_type)

-- ObGetNextObjectOfType
unfoldable pub get_next_object_of_type : Ptr → Cmd Kernel Ptr
get_next_object_of_type object = do
  assert (not (object == null))
  assert_object (body_to_header object)
  r ← header (body_to_header object)
  pure (if r.next_object_of_type == null then null else header_to_body r.next_object_of_type)

module _ (fuel : ℕ) (delete_method : Ptr → Ptr → Cmd Kernel (Unit {0})) where
  -- The call of the type's Delete method, where it has one.
  unfoldable pub call_delete : Ptr → Ptr → Cmd Kernel (Unit {0})
  call_delete type object = if type == null then pure tt else do
    t ← object_type type
    if t.delete == null then pure tt else delete_method t.delete object

  -- The innermost block of ObDereferenceObject.
  unfoldable pub delete_object : Ptr → Cmd Kernel (Unit {0})
  delete_object object = do
    unlink_object_from_type_list fuel (body_to_header object)
    r ← header (body_to_header object)
    call_delete r.type object
    mm_free (body_to_header object)

  unfoldable pub dereference_object : Ptr → Cmd Kernel (Unit {0})
  dereference_object object = do
    assert (not (object == null))
    let h = body_to_header object
    assert_object h
    r ← header h
    assert (ltb 0 r.pointer_count)
    assert (ltb r.handle_count r.pointer_count)
    set_header h λ r. record r { pointer_count = dec r.pointer_count }
    r ← header h
    if (r.pointer_count == 0) && not (is_permanent r.attributes)
        then delete_object object
        else pure tt
