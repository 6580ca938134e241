-- ===== src/Ps/Reference.antt =====
-- base/ps/ps.c: PsReferenceProcess on the list of processes.
use arcos_os.Prelude.{
  ℕ, zero, suc, ◌<◌, ◌≡◌, refl, inl, inr, Option, none, some, List, [], ◌∷◌, length, arith, ◌==◌,
  Bool-cases, ne→==,
}
use arcos_os.Prelude.Run.{Run, ok}
use arcos_os.Types.{Ptr, null, Status, success, no_such_process}
use arcos_os.Ke.Chain.{load-ok}
use arcos_os.Kernel.{Kernel, body_to_header}
use arcos_os.Ob.Objects.{reference_object, inc}
use arcos_os.Ob.Access.{header-ok, set_header-ok, assert_object-ok, type_check-ok}
use arcos_os.Ps.Lookup.{reference_process_from, reference_process}
use arcos_os.Ps.Listed.{IsObject, Objects, Listed, head_of, find_pid, get_next-head, get_first-head}
use arcos_os.Ob.Balance.{referenced}

pub reference_object-referenced :
    (k : Kernel) (type p : Ptr)
    → IsObject k.headers type p
    → reference_object p type k ≡ ok success (referenced k p)
unfolding reference_object
reference_object-referenced k type p i = rw (
  ne→== p null i.0,
  assert_object-ok (body_to_header p) k i.1 i.3,
  header-ok (body_to_header p) k i.1,
  type_check-ok type (k.headers (body_to_header p)).type (inr i.4),
  set_header-ok (body_to_header p) (λ r. record r { pointer_count = inc r.pointer_count }) k i.1,
)

-- What PsReferenceProcess does, by the process that it finds.
abbrev pub reference_result : Kernel → Option Ptr → Run Kernel (Status × Ptr)
reference_result k none = ok (no_such_process, null) k
reference_result k (some p) = ok (success, p) (referenced k p)

reference_process_from-find :
    (fuel pid : ℕ) (k : Kernel) (first : Ptr) (ps : List Ptr)
    → Objects k.headers k.process_type first ps
    → length ps < fuel
    → reference_process_from fuel pid (head_of ps) k ≡ reference_result k (find_pid k pid ps)
unfolding reference_process_from
reference_process_from-find zero pid k first ps o f = absurd (omega arith)
reference_process_from-find (suc fuel) pid k first [] o f = refl
reference_process_from-find (suc fuel) pid k first (p ∷ ps) o f =
    rw (ne→== p null o.1.0, load-ok p k.ke o.1.0)
      (elim (Bool-cases ((k.ke.procs p).pid == pid)) [
        | inl hit ↦ rw (hit, reference_object-referenced k k.process_type p o.1)
        | inr miss ↦
            rw (miss, get_next-head k k.process_type p ps o.1 o.2)
              (reference_process_from-find fuel pid k
                (k.headers (body_to_header p)).next_object_of_type ps o.2 (omega arith))
      ])

-- PsReferenceProcess counts a reference more for the first listed process that has the number, and
-- hands it out; where no process has it, it returns STATUS_NO_SUCH_PROCESS and changes nothing. Its
-- loop needs one round more than there are processes.
pub reference_process-find :
    (fuel pid : ℕ) (k : Kernel) (ps : List Ptr)
    → Listed k ps
    → length ps < fuel
    → reference_process fuel pid k ≡ reference_result k (find_pid k pid ps)
unfolding reference_process
reference_process-find fuel pid k ps l f =
    rw (get_first-head k ps l) (reference_process_from-find fuel pid k _ ps l.objects f)
