-- ===== src/Ob/Balance.antt =====
-- base/ob/ob.c: ObDereferenceObject on an object that has other references.
use arcos_os.Prelude.{
  ℕ, ◌+◌, ◌≤◌, ◌<◌, ◌≡◌, ◌≢◌, ◌∙◌, ap, arith, update, update_self, update_same, update_twice, ne→==,
  lt→ltb,
}
use arcos_os.Prelude.Run.{Cmd, ok}
use arcos_os.Types.{Ptr, null, ulong_mod}
use arcos_os.Kernel.{Kernel, ObjectHeader, body_to_header}
use arcos_os.Ob.Objects.{object_magic, inc, dec, dereference_object}
use arcos_os.Ob.Access.{header-ok, set_header-ok, assert_object-ok}

abbrev released : ObjectHeader → ObjectHeader
released r = record r { pointer_count = dec r.pointer_count }

-- A reference more on an object.
abbrev pub referenced : Kernel → Ptr → Kernel
referenced k p = record k {
  headers = update k.headers (body_to_header p) (record (k.headers (body_to_header p)) {
    pointer_count = inc (k.headers (body_to_header p)).pointer_count;
  });
}

-- A reference less on an object.
abbrev pub dereferenced : Kernel → Ptr → Kernel
dereferenced k p = record k {
  headers = update k.headers (body_to_header p) (released (k.headers (body_to_header p)));
}

-- ObDereferenceObject of a valid object that has more than one reference, and fewer handles than
-- references, takes one reference away and does nothing else.
pub dereference_object-kept :
    (fuel : ℕ) (delete_method : Ptr → Ptr → Cmd Kernel (Unit {0})) (k : Kernel) (p : Ptr)
    → p ≢ null
    → body_to_header p ≢ null
    → (k.headers (body_to_header p)).magic ≡ object_magic
    → (k.headers (body_to_header p)).handle_count < (k.headers (body_to_header p)).pointer_count
    → 1 < (k.headers (body_to_header p)).pointer_count
    → (k.headers (body_to_header p)).pointer_count < ulong_mod
    → dereference_object fuel delete_method p k ≡ ok tt (dereferenced k p)
unfolding dereference_object
dereference_object-kept fuel delete_method k p ne h_ne magic handles more small =
    let count : ℕ = (k.headers (body_to_header p)).pointer_count in
    rw (
      ne→== p null ne,
      assert_object-ok (body_to_header p) k h_ne magic,
      header-ok (body_to_header p) k h_ne,
      lt→ltb 0 count (omega arith),
      lt→ltb _ _ handles,
      set_header-ok (body_to_header p) released k h_ne,
      header-ok (body_to_header p) (dereferenced k p) h_ne,
      update_self k.headers (body_to_header p) (released (k.headers (body_to_header p))),
      ne→== (dec count) 0 (λ e. omega (arith, e, more, small)),
    )

-- Taking a reference and giving it back leaves the kernel as it was.
pub dereferenced-referenced :
    (k : Kernel) (p : Ptr)
    → (k.headers (body_to_header p)).pointer_count < ulong_mod
    → dereferenced (referenced k p) p ≡ k
dereferenced-referenced k p small =
    let r : ObjectHeader = k.headers (body_to_header p) in
    let more : ObjectHeader = record r { pointer_count = inc r.pointer_count } in
    let same : dec (inc r.pointer_count) ≡ r.pointer_count = omega arith in
    let back : released more ≡ r = ap (λ n. record r { pointer_count = n }) same in
    ap (λ m. record k { headers = m })
      (ap
          (λ (x : ObjectHeader).
            update (update k.headers (body_to_header p) more) (body_to_header p) (released x))
          (update_self k.headers (body_to_header p) more)
        ∙ update_twice k.headers (body_to_header p) more (released more)
        ∙ update_same k.headers (body_to_header p) (released more) back)

-- ObDereferenceObject behind a call that has taken a reference to a valid object, with no more handles
-- than references, restores the kernel.
pub dereference_object-referenced :
    (fuel : ℕ) (delete_method : Ptr → Ptr → Cmd Kernel (Unit {0})) (k : Kernel) (p : Ptr)
    → p ≢ null
    → body_to_header p ≢ null
    → (k.headers (body_to_header p)).magic ≡ object_magic
    → (k.headers (body_to_header p)).handle_count ≤ (k.headers (body_to_header p)).pointer_count
    → 0 < (k.headers (body_to_header p)).pointer_count
    → (k.headers (body_to_header p)).pointer_count + 1 < ulong_mod
    → dereference_object fuel delete_method p (referenced k p) ≡ ok tt k
dereference_object-referenced fuel delete_method k p ne h_ne magic handles some_left small =
    let r : ObjectHeader = k.headers (body_to_header p) in
    let self =
      update_self k.headers (body_to_header p) (record r { pointer_count = inc r.pointer_count }) in
    let count = ap (λ (x : ObjectHeader). x.pointer_count) self in
    let counted : inc r.pointer_count ≡ r.pointer_count + 1 = omega arith in
    let held = ap (λ (x : ObjectHeader). x.handle_count) self in
    dereference_object-kept fuel delete_method (referenced k p) p ne h_ne
      (ap (λ (x : ObjectHeader). x.magic) self ∙ magic) (omega (arith, count, held, counted))
      (omega (arith, count, counted)) (omega (arith, count, counted))
    ∙ ap (ok tt) (dereferenced-referenced k p (omega arith))
