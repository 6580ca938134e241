-- ===== src/Mess/Again.antt =====
-- base/mess/mess.c: RemoveProcessFromQueue of a node that ResumeMethod has already taken out, as
-- MessSendMessage calls it behind KeResumeProcess.
use arcos_os.Prelude.{
  ◌≡◌, ◌≢◌, refl, sym, ap, ◌∙◌, subst, false, List, [], ◌∷◌, ◌++◌, arith, has, has-append,
  has-last_from, last_from, ne→==, append_assoc, append-nil, update, update_same,
}
use arcos_os.Prelude.Links.{Links, Distinct, Links-at, Links-ne, Distinct-drop, last_from-behind}
use arcos_os.Prelude.Run.{ok, Returns, returns}
use arcos_os.Types.{Ptr, null, success}
use arcos_os.Kernel.{Kernel}
use arcos_os.Mm.{mm_free}
use arcos_os.Mess.WaitQueue.{set_node_next, remove_process_from_queue}
use arcos_os.Mess.Waiters.{next_of, Queued, mess_node-ok, set_mess_node-ok}
use arcos_os.Mess.Removal.{OnlyLinks, node-OnlyLinks, queue-OnlyLinks, left_over, unlinked-Links}

-- What is linked behind the queue once the node is taken out twice.
abbrev pub left_behind : List Ptr → List Ptr → List Ptr → List Ptr
left_behind [] [] stale = []
left_behind [] (y ∷ ys) stale = stale
left_behind (x ∷ xs) behind stale = stale

abbrev relink : Kernel → Ptr → Ptr → Kernel
relink k p q = record k { mess_nodes = update k.mess_nodes p (set_node_next q (k.mess_nodes p)) }

relink_same : (k : Kernel) (p q : Ptr) → (k.mess_nodes p).next ≡ q → relink k p q ≡ k
relink_same k p q e =
    ap (λ m. record k { mess_nodes = m })
      (update_same k.mess_nodes p (set_node_next q (k.mess_nodes p))
        (ap (λ r. set_node_next r (k.mess_nodes p)) (sym e)))

module _ (k : Kernel) (it : Ptr) (ne : it ≢ null) where
  -- Neither the first nor the last node is meant.
  remove-relink :
      (prev : Ptr)
      → prev ≢ null
      → k.mess_first ≢ it
      → k.mess_last ≢ it
      → remove_process_from_queue it prev k ≡ ok success (relink k prev (k.mess_nodes it).next)
  unfolding remove_process_from_queue mm_free
  remove-relink prev prev_ne first_ne last_ne = rw (
    ne→== k.mess_first it first_ne,
    ne→== k.mess_last it last_ne,
    mess_node-ok it k ne,
    set_mess_node-ok prev (set_node_next (k.mess_nodes it).next) k prev_ne,
  )

  -- The second call takes a node that was the last of several out for good, and does nothing else.
  pub remove_process_from_queue-again :
      (before behind stale : List Ptr)
      → has it before ≡ false
      → has it behind ≡ false
      → Queued k (before ++ behind) (left_over before it behind stale)
      → Links (next_of k.mess_nodes) (k.mess_nodes it).next (behind ++ stale) null
      → Returns
          (λ status k'.
            (status ≡ success)
            × Queued k' (before ++ behind) (left_behind before behind stale)
            × OnlyLinks k before k')
          (remove_process_from_queue it (last_from it before) k)
  remove_process_from_queue-again [] [] stale out out' q c =
      rw
        (
          remove-relink it ne (λ e. ne (sym e ∙ q.0)) (λ e. ne (sym e ∙ q.1)),
          relink_same k it (k.mess_nodes it).next refl,
        )
        (returns (refl, q, queue-OnlyLinks k [] k.mess_first k.mess_last))
  remove_process_from_queue-again [] (y ∷ ys) stale out out' q c =
      let first_ne : k.mess_first ≢ it = λ e. ground (arith, q.0.0) in
      let last_ne : k.mess_last ≢ it = λ e. ground (arith, q.2, has-last_from y ys) in
      rw (remove-relink it ne first_ne last_ne, relink_same k it (k.mess_nodes it).next refl)
        (returns (refl, q, queue-OnlyLinks k [] k.mess_first k.mess_last))
  remove_process_from_queue-again (x ∷ xs) [] stale out out' q c =
      let l : Ptr = last_from x xs in
      let e : xs ++ [] ≡ xs = append-nil xs in
      let chain =
        subst (λ ys. Links (next_of k.mess_nodes) k.mess_first (x ∷ (ys ++ it ∷ stale)) null) e
          q.0 in
      let once = subst (λ ys. Distinct (x ∷ (ys ++ it ∷ stale))) e q.1 in
      let last = q.2 ∙ ap (last_from x) e in
      let prev_ne =
        Links-ne (next_of k.mess_nodes) k.mess_first null l (x ∷ (xs ++ it ∷ stale)) chain
          (ground (arith, has-last_from x xs, has-append l xs (it ∷ stale))) in
      let first_ne : k.mess_first ≢ it = λ e. ground (arith, q.0.0) in
      let last_ne : k.mess_last ≢ it = λ e. ground (arith, last, has-last_from x xs) in
      rw (remove-relink l prev_ne first_ne last_ne) (
        returns (
          refl,
          (
            subst
                (λ ys.
                  Links (next_of (relink k l (k.mess_nodes it).next).mess_nodes) k.mess_first
                    (x ∷ (ys ++ stale)) null)
                (sym e)
                (unlinked-Links k.mess_nodes k.mess_first x it l (k.mess_nodes it).next xs stale
                  chain once refl refl),
            subst (λ ys. Distinct (x ∷ (ys ++ stale))) (sym e)
                (Distinct-drop it (x ∷ xs) stale once),
            q.2,
          ),
          node-OnlyLinks k (x ∷ xs) l (k.mess_nodes it).next (has-last_from x xs),
        ))
  remove_process_from_queue-again (x ∷ xs) (y ∷ ys) stale out out' q c =
      let l : Ptr = last_from x xs in
      let e = append_assoc xs (y ∷ ys) stale in
      let chain = subst (λ zs. Links (next_of k.mess_nodes) k.mess_first (x ∷ zs) null) e q.0 in
      let last = q.2 ∙ last_from-behind x y xs ys in
      let prev_ne =
        Links-ne (next_of k.mess_nodes) k.mess_first null l (x ∷ (xs ++ (y ∷ (ys ++ stale)))) chain
          (ground (arith, has-last_from x xs, has-append l xs (y ∷ (ys ++ stale)))) in
      let first_ne : k.mess_first ≢ it = λ e. ground (arith, q.0.0) in
      let last_ne : k.mess_last ≢ it = λ e. ground (arith, last, has-last_from y ys) in
      let same : (k.mess_nodes l).next ≡ (k.mess_nodes it).next =
        (Links-at (next_of k.mess_nodes) k.mess_first x null xs (y ∷ (ys ++ stale)) chain).0
        ∙ sym c.0 in
      rw (remove-relink l prev_ne first_ne last_ne, relink_same k l (k.mess_nodes it).next same)
        (returns (refl, q, queue-OnlyLinks k (x ∷ xs) k.mess_first k.mess_last))
