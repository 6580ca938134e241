-- ===== src/Mess/Removal.antt =====
-- base/mess/mess.c: taking a node out of the queue of waiting processes: RemoveProcessFromQueue and
-- ResumeMethod.
use arcos_os.Prelude.{
  ◌≡◌, ◌≢◌, refl, sym, ◌∙◌, subst, ap, true, false, List, [], ◌∷◌, ◌++◌, arith, update, update_ne,
  update_all, has, has-append, has-last_from, last_from, last_from-append, eq→==, ne→==,
  append_assoc, append-nil,
}
use arcos_os.Prelude.Links.{
  Links, Distinct, Links-frame, Links-relink, Links-at, Links-ne, Distinct-drop, Distinct-out,
  Distinct-apart, last_from-behind,
}
use arcos_os.Prelude.Run.{Returns, returns}
use arcos_os.Types.{Ptr, null, success}
use arcos_os.Kernel.{Kernel, MessNode}
use arcos_os.Mm.{mm_free}
use arcos_os.Mess.Waiters.{next_of, Queued, mess_node-ok, set_mess_node-ok}
use arcos_os.Mess.WaitQueue.{set_node_next, remove_process_from_queue}

-- Nothing but links of the queue has changed, and none behind the nodes `before`.
pub record OnlyLinks (k : Kernel) (before : List Ptr) (k' : Kernel) : Type 0 where
  pub same : k' ≡ record k {
    mess_nodes = k'.mess_nodes;
    mess_first = k'.mess_first;
    mess_last = k'.mess_last;
  }
  pub links : (a : Ptr) → set_node_next null (k'.mess_nodes a) ≡ set_node_next null (k.mess_nodes a)
  pub others : (a : Ptr) → has a before ≡ false → k'.mess_nodes a ≡ k.mess_nodes a

abbrev pub with_queue : Kernel → Ptr → Ptr → Kernel
with_queue k first last = record k { mess_first = first; mess_last = last }

pub queue-OnlyLinks :
    (k : Kernel) (before : List Ptr) (first last : Ptr)
    → OnlyLinks k before (with_queue k first last)
queue-OnlyLinks k before first last = record {
  same = refl;
  links = λ a. refl;
  others = λ a out. refl;
}

pub node-OnlyLinks :
    (k : Kernel) (before : List Ptr) (p q : Ptr)
    → has p before ≡ true
    → OnlyLinks k before
        (record k { mess_nodes = update k.mess_nodes p (set_node_next q (k.mess_nodes p)) })
node-OnlyLinks k before p q on = record {
  same = refl;
  links =
      update_all (λ a n. set_node_next null n ≡ set_node_next null (k.mess_nodes a)) k.mess_nodes p
        (set_node_next q (k.mess_nodes p)) refl (λ a ne. refl);
  others = λ a out. update_ne k.mess_nodes p _ a (λ e. cc (ap (λ b. has b before) e));
}

-- What is linked behind the queue once `it` has been taken out between `before` and `behind`.
abbrev pub left_over : List Ptr → Ptr → List Ptr → List Ptr → List Ptr
left_over [] it behind stale = elim behind [ [] ↦ [] | _ ∷ _ ↦ stale ]
left_over (x ∷ xs) it [] stale = it ∷ stale
left_over (x ∷ xs) it (y ∷ ys) stale = stale

pub unlinked-Links :
    (m : Ptr → MessNode) (p x it l r : Ptr) (xs ys : List Ptr)
    → Links (next_of m) p (x ∷ (xs ++ it ∷ ys)) null
    → Distinct (x ∷ (xs ++ it ∷ ys))
    → l ≡ last_from x xs
    → r ≡ next_of m it
    → Links (next_of (update m l (set_node_next r (m l)))) p (x ∷ (xs ++ ys)) null
unfolding update
unlinked-Links m p x it l r xs ys c d e e' =
    let m' : Ptr → MessNode = update m l (set_node_next r (m l)) in
    let at : next_of m' (last_from x xs) ≡ r = ground arith in
    let tail = (Links-at (next_of m) p x null xs (it ∷ ys) c).2 in
    let out : has (last_from x xs) ys ≡ false =
      Distinct-apart (last_from x xs) (x ∷ xs) ys (Distinct-drop it (x ∷ xs) ys d)
        (has-last_from x xs) in
    Links-relink (next_of m) (next_of m') p x null null xs (it ∷ ys) ys c d
      (λ a h other. ground arith)
      (subst (λ q. Links (next_of m') q ys null) (sym (at ∙ e'))
        (Links-frame (next_of m) (next_of m') (next_of m it) null ys tail (λ a h. ground arith)))

-- A node between others is neither the first nor the last.
pub other_first :
    (it x : Ptr) (xs behind stale : List Ptr)
    → Distinct (x ∷ ((xs ++ it ∷ behind) ++ stale))
    → x ≢ it
other_first it x xs behind stale d e =
    ground (arith, d.0, has-append x (xs ++ it ∷ behind) stale, has-append x xs (it ∷ behind))

other_last :
    (it y : Ptr) (xs ys stale : List Ptr)
    → Distinct ((xs ++ it ∷ (y ∷ ys)) ++ stale)
    → last_from y ys ≢ it
other_last it y xs ys stale d e =
    let d' = subst Distinct (append_assoc xs (it ∷ (y ∷ ys)) stale) d in
    let out = (Distinct-out it xs (y ∷ (ys ++ stale)) d').1 in
    ground (arith, has-last_from y ys, has-append (last_from y ys) (y ∷ ys) stale, out)

-- RemoveProcessFromQueue
pub remove_process_from_queue-Queued :
    (it : Ptr) (k : Kernel) (before behind stale : List Ptr)
    → Queued k (before ++ it ∷ behind) stale
    → Returns
        (λ status k'.
          (status ≡ success)
          × Queued k' (before ++ behind) (left_over before it behind stale)
          × OnlyLinks k before k')
        (remove_process_from_queue it (last_from it before) k)
unfolding remove_process_from_queue mm_free
remove_process_from_queue-Queued it k [] [] stale q =
    rw (eq→== k.mess_first it q.0.0, eq→== k.mess_last it q.2)
      (returns (refl, (refl, refl), queue-OnlyLinks k [] null null))
remove_process_from_queue-Queued it k [] (y ∷ ys) stale q =
    let apart = other_last it y [] ys stale q.1 in
    rw
      (
        eq→== k.mess_first it q.0.0,
        ne→== k.mess_last it (λ e. apart (sym q.2 ∙ e)),
        mess_node-ok k.mess_first k (λ e. q.0.1 (sym q.0.0 ∙ e)),
      )
      (returns (
        refl,
        (
          subst
              (λ p. Links (next_of k.mess_nodes) (next_of k.mess_nodes p) (y ∷ (ys ++ stale)) null)
              (sym q.0.0) q.0.2,
          q.1.1,
          q.2,
        ),
        queue-OnlyLinks k [] (k.mess_nodes k.mess_first).next k.mess_last,
      ))
remove_process_from_queue-Queued it k (x ∷ xs) [] stale q =
    let last : k.mess_last ≡ it = q.2 ∙ last_from-append x it xs in
    let first_ne = other_first it x xs [] stale q.1 in
    let same : (xs ++ it ∷ []) ++ stale ≡ (xs ++ []) ++ (it ∷ stale) =
      simp (append_assoc, append-nil) in
    rw (ne→== k.mess_first it (λ e. first_ne (sym q.0.0 ∙ e)), eq→== k.mess_last it last)
      (returns (
        refl,
        (
          subst (λ ys. Links (next_of k.mess_nodes) k.mess_first (x ∷ ys) null) same q.0,
          subst (λ ys. Distinct (x ∷ ys)) same q.1,
          ap (last_from x) (sym (append-nil xs)),
        ),
        queue-OnlyLinks k (x ∷ xs) k.mess_first (last_from x xs),
      ))
remove_process_from_queue-Queued it k (x ∷ xs) (y ∷ ys) stale q =
    let last : k.mess_last ≡ last_from y ys = q.2 ∙ last_from-behind x it xs (y ∷ ys) in
    let first_ne = other_first it x xs (y ∷ ys) stale q.1 in
    let apart = other_last it y (x ∷ xs) ys stale q.1 in
    let chain =
      subst (λ zs. Links (next_of k.mess_nodes) k.mess_first (x ∷ zs) null)
        (append_assoc xs (it ∷ y ∷ ys) stale) q.0 in
    let once = subst (λ zs. Distinct (x ∷ zs)) (append_assoc xs (it ∷ y ∷ ys) stale) q.1 in
    let it_ne =
      Links-ne (next_of k.mess_nodes) k.mess_first null it (x ∷ (xs ++ it ∷ (y ∷ (ys ++ stale))))
        chain (ground (arith, has-append it xs (it ∷ (y ∷ (ys ++ stale))))) in
    let prev_ne =
      Links-ne (next_of k.mess_nodes) k.mess_first null (last_from x xs)
        (x ∷ (xs ++ it ∷ (y ∷ (ys ++ stale)))) chain
        (ground
          (arith, has-last_from x xs, has-append (last_from x xs) xs (it ∷ (y ∷ (ys ++ stale))))) in
    rw
      (
        ne→== k.mess_first it (λ e. first_ne (sym q.0.0 ∙ e)),
        ne→== k.mess_last it (λ e. apart (sym last ∙ e)),
        mess_node-ok it k it_ne,
        set_mess_node-ok (last_from x xs) (set_node_next (k.mess_nodes it).next) k prev_ne,
      )
      (returns (
        refl,
        (
          subst
              (λ zs.
                Links
                  (next_of (
                    update k.mess_nodes (last_from x xs)
                      (set_node_next (k.mess_nodes it).next (k.mess_nodes (last_from x xs)))))
                  k.mess_first (x ∷ zs) null)
              (sym (append_assoc xs (y ∷ ys) stale))
              (unlinked-Links k.mess_nodes k.mess_first x it (last_from x xs) (k.mess_nodes it).next
                xs (y ∷ (ys ++ stale)) chain once refl refl),
          subst (λ zs. Distinct (x ∷ zs)) (sym (append_assoc xs (y ∷ ys) stale))
              (Distinct-drop it (x ∷ xs) (y ∷ (ys ++ stale)) once),
          last ∙ sym (last_from-behind x y xs ys),
        ),
        node-OnlyLinks k (x ∷ xs) (last_from x xs) (k.mess_nodes it).next (has-last_from x xs),
      ))
