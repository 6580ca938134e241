-- ===== src/Ob/Access.antt =====
-- base/ob/ob.c: reads and writes of headers and types through pointers that are not null.
use arcos_os.Prelude.{
  ◌≡◌, ◌≢◌, refl, ◌⊎◌, inl, inr, true, false, not, ◌&&◌, ◌==◌, update, eq→==, ne→==,
}
use arcos_os.Prelude.Run.{ok}
use arcos_os.Types.{Ptr, null}
use arcos_os.Kernel.{Kernel, ObjectHeader, header, set_header}
use arcos_os.Ob.Objects.{object_magic, assert_object}
use arcos_os.Kernel.{object_type}

pub header-ok : (p : Ptr) (k : Kernel) → p ≢ null → header p k ≡ ok (k.headers p) k
header-ok p k ne = rw (ne→== p null ne)

pub set_header-ok :
    (p : Ptr) (f : ObjectHeader → ObjectHeader) (k : Kernel)
    → p ≢ null
    → set_header p f k ≡ ok tt (record k { headers = update k.headers p (f (k.headers p)) })
set_header-ok p f k ne = rw (ne→== p null ne)

pub object_type-ok : (p : Ptr) (k : Kernel) → p ≢ null → object_type p k ≡ ok (k.types p) k
object_type-ok p k ne = rw (ne→== p null ne)

pub assert_object-ok :
    (p : Ptr) (k : Kernel)
    → p ≢ null
    → (k.headers p).magic ≡ object_magic
    → assert_object p k ≡ ok tt k
assert_object-ok p k ne m = rw (ne→== p null ne, m)

-- The check of the type lets an object pass that has it, or any object where none is asked for.
pub type_check-ok :
    (type t : Ptr) → (type ≡ null) ⊎ (t ≡ type) → (not (type == null) && not (t == type)) ≡ false
type_check-ok type t (inl e) = rw (eq→== type null e)
type_check-ok type t (inr e) =
    rw (eq→== t type e)
      (elim (type == null) as (λ b. (not b && false) ≡ false) [ true ↦ refl | false ↦ refl ])
