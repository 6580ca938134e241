-- ===== src/Ps/Listed.antt =====
-- base/ps/ps.c: the list of the objects of the process type as a sequence of processes.
use arcos_os.Prelude.{
  ℕ, ◌≡◌, ◌≢◌, ◌∙◌, ap, Option, none, some, List, [], ◌∷◌, ◌==◌, if◌then◌else◌, eq→==, ne→==,
}
use arcos_os.Prelude.Run.{ok}
use arcos_os.Types.{Ptr, null}
use arcos_os.Kernel.{Kernel, ObjectHeader, body_to_header, header_to_body}
use arcos_os.Ob.Objects.{object_magic, get_first_object_of_type, get_next_object_of_type}
use arcos_os.Ob.Access.{object_type-ok, header-ok, assert_object-ok}

-- `p` is the body of a valid object of the type.
abbrev pub IsObject : (Ptr → ObjectHeader) → Ptr → Ptr → Type 0
IsObject m type p =
    (p ≢ null)
    × (body_to_header p ≢ null)
    × (header_to_body (body_to_header p) ≡ p)
    × ((m (body_to_header p)).magic ≡ object_magic)
    × ((m (body_to_header p)).type ≡ type)

-- The objects from the header `first` on are those of the list, linked by NextObjectOfType.
abbrev pub Objects : (Ptr → ObjectHeader) → Ptr → Ptr → List Ptr → Type 0
Objects m type first [] = first ≡ null
Objects m type first (p ∷ ps) =
    (first ≡ body_to_header p)
    × IsObject m type p
    × Objects m type (m (body_to_header p)).next_object_of_type ps

-- The process type is set up, and `ps` are the processes in its list.
pub record Listed (k : Kernel) (ps : List Ptr) : Type 0 where
  pub type_ne : k.process_type ≢ null
  pub type_header_ne : body_to_header k.process_type ≢ null
  pub type_magic : (k.headers (body_to_header k.process_type)).magic ≡ object_magic
  pub objects : Objects k.headers k.process_type (k.types k.process_type).first_object_of_type ps

abbrev pub head_of : List Ptr → Ptr
head_of [] = null
head_of (p ∷ ps) = p

abbrev pub pids : Kernel → List Ptr → List ℕ
pids k [] = []
pids k (p ∷ ps) = (k.ke.procs p).pid ∷ pids k ps

-- The first process with the number.
abbrev pub find_pid : Kernel → ℕ → List Ptr → Option Ptr
find_pid k pid [] = none
find_pid k pid (p ∷ ps) = if (k.ke.procs p).pid == pid then some p else find_pid k pid ps

abbrev body_of : Ptr → Ptr
body_of h = if h == null then null else header_to_body h

body_of-head :
    (m : Ptr → ObjectHeader) (type first : Ptr) (ps : List Ptr)
    → Objects m type first ps
    → body_of first ≡ head_of ps
body_of-head m type first [] o = rw (eq→== first null o)
body_of-head m type first (p ∷ ps) o =
    rw (ne→== first null (rw o.0 o.1.1)) (ap header_to_body o.0 ∙ o.1.2)

pub get_next-head :
    (k : Kernel) (type p : Ptr) (ps : List Ptr)
    → IsObject k.headers type p
    → Objects k.headers type (k.headers (body_to_header p)).next_object_of_type ps
    → get_next_object_of_type p k ≡ ok (head_of ps) k
unfolding get_next_object_of_type
get_next-head k type p ps i o =
    rw
      (
        ne→== p null i.0,
        assert_object-ok (body_to_header p) k i.1 i.3,
        header-ok (body_to_header p) k i.1,
      )
      (ap (λ a. ok a k)
        (body_of-head k.headers type (k.headers (body_to_header p)).next_object_of_type ps o))

pub get_first-head :
    (k : Kernel) (ps : List Ptr)
    → Listed k ps
    → get_first_object_of_type k.process_type k ≡ ok (head_of ps) k
unfolding get_first_object_of_type
get_first-head k ps l =
    rw
      (
        ne→== k.process_type null l.type_ne,
        assert_object-ok (body_to_header k.process_type) k l.type_header_ne l.type_magic,
        object_type-ok k.process_type k l.type_ne,
      )
      (ap (λ a. ok a k)
        (body_of-head k.headers k.process_type (k.types k.process_type).first_object_of_type ps
          l.objects))
