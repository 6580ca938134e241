-- ===== src/Ps/Numbers.antt =====
-- base/ps/ps.c: PIDInUse and GetNewPID on the list of processes.
use arcos_os.Prelude.{
  ℕ, zero, suc, ◌+◌, ◌%◌, ◌≤◌, ◌<◌, ℕ_discrete, ◌≡◌, ◌≢◌, refl, ◌∙◌, sym, ap, inl, inr, true, false,
  List, [], ◌∷◌, length, arith, ◌==◌, has, erase, has-erase_ne, Bool-cases, ==→eq, ==→ne, eq→==,
  ne→==,
}
use arcos_os.Prelude.Run.{ok, Returns, returns, Returns-weaken}
use arcos_os.Types.{Ptr, null, ulong_mod}
use arcos_os.Ke.Chain.{load-ok}
use arcos_os.Kernel.{Kernel, body_to_header}
use arcos_os.Ps.Lookup.{pid_in_use_from, pid_in_use, get_new_pid_from, get_new_pid}
use arcos_os.Ps.Listed.{Objects, Listed, head_of, pids, get_next-head, get_first-head}

pid_in_use_from-has :
    (fuel pid : ℕ) (k : Kernel) (type first : Ptr) (ps : List Ptr)
    → Objects k.headers type first ps
    → length ps < fuel
    → pid_in_use_from fuel pid (head_of ps) k ≡ ok (has pid (pids k ps)) k
unfolding pid_in_use_from
pid_in_use_from-has zero pid k type first ps o f = absurd (omega arith)
pid_in_use_from-has (suc fuel) pid k type first [] o f = refl
pid_in_use_from-has (suc fuel) pid k type first (p ∷ ps) o f =
    rw (ne→== p null o.1.0, load-ok p k.ke o.1.0)
      (elim (Bool-cases ((k.ke.procs p).pid == pid)) [
        | inl hit ↦ rw (hit, eq→== pid (k.ke.procs p).pid (sym (==→eq _ _ hit)))
        | inr miss ↦
            rw
              (
                miss,
                ne→== pid (k.ke.procs p).pid (λ e. ==→ne _ _ miss (sym e)),
                get_next-head k type p ps o.1 o.2,
              )
              (pid_in_use_from-has fuel pid k type
                (k.headers (body_to_header p)).next_object_of_type ps o.2 (omega arith))
      ])

length-erase : (a : ℕ) (xs : List ℕ) → has a xs ≡ true → length xs ≡ suc (length (erase a xs))
length-erase a [] h = cc
length-erase a (x ∷ xs) h = ground (arith, length-erase a xs)

length-pids : (k : Kernel) (ps : List Ptr) → length (pids k ps) ≡ length ps
length-pids k [] = refl
length-pids k (p ∷ ps) = omega (arith, length-pids k ps)

true-false : true ≡ false → ⊥
true-false e = cc

-- Among more numbers in a row than a list is long, one is not in the list.
unused :
    (n a : ℕ) (xs : List ℕ) → length xs < n → (j : ℕ) × (a ≤ j) × (j < a + n) × (has j xs ≡ false)
unused zero a xs h = absurd (omega arith)
unused (suc n) a xs h = elim (Bool-cases (has a xs)) [
  | inl on ↦
      let (j, lo, hi, out) = unused n (suc a) (erase a xs) (omega (arith, length-erase a xs on)) in
      (
        j,
        omega arith,
        omega arith,
        sym (has-erase_ne j a xs (λ e. absurd (omega (arith, e)))) ∙ out,
      )
  | inr out ↦ (a, omega arith, omega arith, out)
]

module _ (fuel : ℕ) (k : Kernel) (ps : List Ptr) (l : Listed k ps) (f : length ps < fuel) where
  -- PIDInUse tells whether a process of the list has the number, and changes nothing.
  pid_in_use-has : (pid : ℕ) → pid_in_use fuel pid k ≡ ok (has pid (pids k ps)) k
  unfolding pid_in_use
  pid_in_use-has pid =
      rw (get_first-head k ps l) (pid_in_use_from-has fuel pid k k.process_type _ ps l.objects f)

  -- The numbers from `pid` on that are taken are skipped.
  get_new_pid_from-ok :
      (tries pid j : ℕ)
      → pid ≤ j
      → j < pid + tries
      → has j (pids k ps) ≡ false
      → j < ulong_mod
      → Returns
          (λ r k'.
            (k' ≡ k)
            × (pid ≤ r)
            × (has r (pids k ps) ≡ false)
            × ((i : ℕ) → pid ≤ i → i < r → has i (pids k ps) ≡ true))
          (get_new_pid_from fuel tries pid k)
  unfolding get_new_pid_from
  get_new_pid_from-ok zero pid j lo hi out small = absurd (omega arith)
  get_new_pid_from-ok (suc tries) pid j lo hi out small =
      rw (pid_in_use-has pid) (elim (Bool-cases (has pid (pids k ps))) [
        | inr free ↦ rw free (returns (refl, omega arith, free, λ i a b. absurd (omega arith)))
        | inl taken ↦
            let differ : pid ≢ j =
              λ e. true-false (sym taken ∙ ap (λ a. has a (pids k ps)) e ∙ out) in
            let step : (pid + 1) % ulong_mod ≡ suc pid = omega arith in
            rw (taken, step)
              (Returns-weaken
                (get_new_pid_from-ok tries (suc pid) j (omega arith) (omega arith) out small)
                λ r k' (same, le, free, below). (
                  same,
                  omega arith,
                  free,
                  λ i a b. elim (ℕ_discrete i pid) [
                    | yes e ↦ ap (λ a. has a (pids k ps)) e ∙ taken
                    | no ne ↦ below i (omega arith) b
                  ],
                ))
      ])

  -- GetNewPID returns the least positive number that no listed process has, and changes nothing.
  -- Fewer processes than rounds, and than numbers, are enough for its loops to end.
  pub get_new_pid-least :
      length ps + 2 < ulong_mod
      → Returns
          (λ r k'.
            (k' ≡ k)
            × (1 ≤ r)
            × (has r (pids k ps) ≡ false)
            × ((i : ℕ) → 1 ≤ i → i < r → has i (pids k ps) ≡ true))
          (get_new_pid fuel fuel k)
  unfolding get_new_pid
  get_new_pid-least small =
      let (j, lo, hi, out) =
        unused (suc (length ps)) 1 (pids k ps) (omega (arith, length-pids k ps)) in
      get_new_pid_from-ok fuel 1 j lo (omega arith) out (omega arith)
