-- ===== src/Ps/Infos.antt =====
-- base/ps/ps.c: PsGetProcessesInfo on the list of processes.
use mathlib.Core.Path.{fun_ext}
use arcos_os.Prelude.{
  ℕ, zero, suc, ◌+◌, ◌≤◌, ◌<◌, ◌≡◌, refl, ◌∙◌, ap, inl, inr, Option, none, some, List, [], ◌∷◌,
  length, arith, ltb, if◌then◌else◌, update, update_self, update_ne, Bool-cases, ne→==, subst,
  lt→ltb, le→ltb,
}
use arcos_os.Prelude.Run.{ok, fault}
use arcos_os.Types.{Ptr, null, Process}
use arcos_os.Ke.Chain.{load-ok}
use arcos_os.Kernel.{Kernel}
use arcos_os.Ps.Info.{
  ProcessInfo, InfoArray, info_of, store_info, processes_info_from, get_processes_info,
}
use arcos_os.Ps.Listed.{Objects, Listed, head_of, get_next-head, get_first-head}

-- The `i`-th process of the list.
abbrev pub nth : List Ptr → ℕ → Option Ptr
nth [] i = none
nth (p ∷ ps) zero = some p
nth (p ∷ ps) (suc i) = nth ps i

-- What stands in an entry of the array: the process of its position, where there is one, and else what stood there.
abbrev pub entry : (Ptr → Process) → ProcessInfo → Option Ptr → ProcessInfo
entry procs old none = old
entry procs old (some p) = info_of (procs p)

module _ (procs : Ptr → Process) where
  -- The array after the rest of the loop.
  filled : ℕ → List Ptr → InfoArray → InfoArray
  filled found [] buffer = buffer
  filled found (p ∷ ps) buffer = filled (found + 1) ps (update buffer found (info_of (procs p)))

  filled_before :
      (found : ℕ) (ps : List Ptr) (buffer : InfoArray) (i : ℕ)
      → i < found
      → filled found ps buffer i ≡ buffer i
  unfolding filled
  filled_before found [] buffer i lt = refl
  filled_before found (p ∷ ps) buffer i lt =
      filled_before (found + 1) ps _ i (omega arith)
      ∙ update_ne buffer found _ i (λ e. absurd (omega (arith, e, lt)))

  filled-entry :
      (found d : ℕ) (ps : List Ptr) (buffer : InfoArray)
      → filled found ps buffer (found + d) ≡ entry procs (buffer (found + d)) (nth ps d)
  unfolding filled
  filled-entry found d [] buffer = refl
  filled-entry found zero (p ∷ ps) buffer =
      let here : found + 0 ≡ found = omega arith in
      rw here (
        filled_before (found + 1) ps _ found (omega arith)
        ∙ update_self buffer found (info_of (procs p)))
  filled-entry found (suc d) (p ∷ ps) buffer =
      let next : found + suc d ≡ found + 1 + d = omega arith in
      rw next (
        filled-entry (found + 1) d ps (update buffer found (info_of (procs p)))
        ∙ ap (λ old. entry procs old (nth ps d))
            (update_ne buffer found _ (found + 1 + d) (λ e. absurd (omega (arith, e)))))

module _ (fuel size : ℕ) (k : Kernel) (type : Ptr) where
  processes_info_from-filled :
      (rounds found : ℕ) (first : Ptr) (ps : List Ptr) (pinfo : ProcessInfo) (buffer : InfoArray)
      → Objects k.headers type first ps
      → length ps < rounds
      → found ≤ size
      → processes_info_from fuel rounds size (head_of ps) found pinfo buffer k ≡ (
          if ltb size (found + length ps)
          then fault
          else ok (found + length ps, filled k.ke.procs found ps buffer) k)
  unfolding processes_info_from filled store_info
  processes_info_from-filled zero found first ps pinfo buffer o f fits = absurd (omega arith)
  processes_info_from-filled (suc rounds) found first [] pinfo buffer o f fits =
      let none_left : found + 0 ≡ found = omega arith in rw (none_left, le→ltb size found fits) refl
  processes_info_from-filled (suc rounds) found first (p ∷ ps) pinfo buffer o f fits =
      let count : found + suc (length ps) ≡ found + 1 + length ps = omega arith in
      elim (Bool-cases (ltb found size)) [
        | inl inside ↦
            rw
              (
                ne→== p null o.1.0,
                load-ok p k.ke o.1.0,
                inside,
                get_next-head k type p ps o.1 o.2,
                count,
              )
              (processes_info_from-filled rounds (found + 1) _ ps _ _ o.2 (omega arith)
                (ground arith))
        | inr behind ↦
            rw
              (
                ne→== p null o.1.0,
                load-ok p k.ke o.1.0,
                behind,
                lt→ltb size (found + suc (length ps)) (ground arith),
              )
              refl
      ]

-- For a buffer of `size` entries, PsGetProcessesInfo counts the listed processes, changes nothing in the
-- kernel, and describes each process in the entry of its position, with the other entries as they were,
-- if there are at most as many processes as entries; if there are more, it ends in a store behind the
-- end of the buffer. The loop needs one round more than there are processes.
pub get_processes_info-described :
    (fuel size : ℕ) (k : Kernel) (ps : List Ptr) (pinfo : ProcessInfo) (buffer : InfoArray)
    → Listed k ps
    → length ps < fuel
    → get_processes_info fuel size pinfo buffer k ≡ (
        if ltb size (length ps)
        then fault
        else ok (length ps, λ i. entry k.ke.procs (buffer i) (nth ps i)) k)
unfolding get_processes_info
get_processes_info-described fuel size k ps pinfo buffer l f =
    let zero_add : (n : ℕ) → 0 + n ≡ n = λ n. omega arith in
    let count : 0 + length ps ≡ length ps = zero_add (length ps) in
    let same : filled k.ke.procs 0 ps buffer ≡ (λ i. entry k.ke.procs (buffer i) (nth ps i)) =
      fun_ext λ i.
        subst (λ n. filled k.ke.procs 0 ps buffer n ≡ entry k.ke.procs (buffer n) (nth ps i))
          (zero_add i) (filled-entry k.ke.procs 0 i ps buffer) in
    rw
      (
        get_first-head k ps l,
        processes_info_from-filled fuel size k k.process_type fuel 0 _ ps pinfo buffer l.objects f
            (omega arith),
        count,
        same,
      )
      refl
