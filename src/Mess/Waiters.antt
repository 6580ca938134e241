-- ===== src/Mess/Waiters.antt =====
-- base/mess/mess.c: the queue of waiting processes as a list of nodes. RemoveProcessFromQueue does not
-- cut the link to a last node, so that nodes which are no longer in the queue may follow it.
use arcos_os.Prelude.{
  ℕ, ◌≡◌, ◌≢◌, refl, sym, ◌∙◌, subst, ap, true, false, List, [], ◌∷◌, ◌++◌, arith, update,
  update_self, has, has-append, has-last_from, last_from, last_from-append, eq→==, ne→==,
  append-nil,
}
use arcos_os.Prelude.Links.{Links, Distinct, Links-relink, Links-ne, Distinct-end}
use arcos_os.Prelude.Run.{ok, Returns, returns}
use arcos_os.Types.{Ptr, null, success}
use arcos_os.Ke.Chain.{load-ok}
use arcos_os.Kernel.{Kernel, MessNode}
use arcos_os.Mm.{mm_alloc}
use arcos_os.Mess.WaitQueue.{mess_node, set_mess_node, set_node_next, add_process_to_queue}

abbrev pub next_of : (Ptr → MessNode) → Ptr → Ptr
next_of m a = (m a).next

-- From `first` on, the nodes `live` are in the queue, `last` is the last of them, and `stale` are still
-- linked behind it.
abbrev pub Nodes : (Ptr → MessNode) → Ptr → Ptr → List Ptr → List Ptr → Type 0
Nodes m first last [] [] = (first ≡ null) × (last ≡ null)
Nodes m first last [] (s ∷ ss) = ⊥
Nodes m first last (x ∷ xs) stale =
    Links (next_of m) first (x ∷ (xs ++ stale)) null
    × Distinct (x ∷ (xs ++ stale))
    × (last ≡ last_from x xs)

-- The queue of the kernel.
abbrev pub Queued : Kernel → List Ptr → List Ptr → Type 0
Queued k = Nodes k.mess_nodes k.mess_first k.mess_last

pub mess_node-ok : (p : Ptr) (k : Kernel) → p ≢ null → mess_node p k ≡ ok (k.mess_nodes p) k
mess_node-ok p k ne = rw (ne→== p null ne)

pub set_mess_node-ok :
    (p : Ptr) (f : MessNode → MessNode) (k : Kernel)
    → p ≢ null
    → set_mess_node p f k
      ≡ ok tt (record k { mess_nodes = update k.mess_nodes p (f (k.mess_nodes p)) })
set_mess_node-ok p f k ne = rw (ne→== p null ne)

abbrev pub waiter : Ptr → ℕ → ℕ → MessNode
waiter process pid type = record { process = process; pid = pid; type = type; next = null }

-- The memory with a new node at `new`, linked behind `l`.
abbrev linked : (Ptr → MessNode) → Ptr → Ptr → MessNode → Ptr → MessNode
linked m new l n = let m' = update m new n in update m' l (set_node_next new (m' l))

linked-Links :
    (m : Ptr → MessNode) (p x new l : Ptr) (xs stale : List Ptr) (n : MessNode)
    → Links (next_of m) p (x ∷ (xs ++ stale)) null
    → Distinct (x ∷ (xs ++ stale))
    → l ≡ last_from x xs
    → has new (x ∷ xs) ≡ false
    → new ≢ null
    → n.next ≡ null
    → Links (next_of (linked m new l n)) p (x ∷ (xs ++ new ∷ [])) null
unfolding update
linked-Links m p x new l xs stale n c d e out ne end =
    let at : next_of (linked m new l n) (last_from x xs) ≡ new = ground arith in
    let ends : next_of (linked m new l n) new ≡ null = ground (arith, has-last_from x xs) in
    Links-relink (next_of m) (next_of (linked m new l n)) p x null null xs stale (new ∷ []) c d
      (λ a h other. ground arith) (at, ne, ends)

linked_self :
    (m : Ptr → MessNode) (x new l : Ptr) (xs : List Ptr) (n : MessNode)
    → l ≡ last_from x xs
    → has new (x ∷ xs) ≡ false
    → linked m new l n new ≡ n
unfolding update
linked_self m x new l xs n e out = ground (arith, has-last_from x xs)

linked_others :
    (m : Ptr → MessNode) (new l a : Ptr) (n : MessNode)
    → a ≢ new
    → set_node_next null (linked m new l n a) ≡ set_node_next null (m a)
unfolding update
linked_others m new l a n other = ground arith

last_ne :
    (k : Kernel) (x : Ptr) (xs stale : List Ptr) → Queued k (x ∷ xs) stale → k.mess_last ≢ null
last_ne k x xs stale q e =
    let last_in : has (last_from x xs) (x ∷ (xs ++ stale)) ≡ true =
      ground (arith, has-last_from x xs, has-append (last_from x xs) (x ∷ xs) stale) in
    Links-ne (next_of k.mess_nodes) k.mess_first null (last_from x xs) (x ∷ (xs ++ stale)) q.0
      last_in (sym q.2 ∙ e)

-- AddProcessToQueue puts a node for the current process, with the type that it waits for, at the end of the
-- queue, cuts off what followed the last node, and leaves the other nodes but for their links as they are.
pub add_process_to_queue-Queued :
    (type : ℕ) (k : Kernel) (xs stale : List Ptr)
    → Queued k xs stale
    → k.ke.current ≢ null
    → k.free_mem_pointer ≢ null
    → has k.free_mem_pointer xs ≡ false
    → Returns
        (λ status k'.
          (status ≡ success)
          × Queued k' (xs ++ k.free_mem_pointer ∷ []) []
          × (k'.mess_nodes k.free_mem_pointer
              ≡ waiter k.ke.current (k.ke.procs k.ke.current).pid type)
          × ((a : Ptr)
              → has a xs ≡ true
              → set_node_next null (k'.mess_nodes a) ≡ set_node_next null (k.mess_nodes a)))
        (add_process_to_queue type k)
unfolding add_process_to_queue mm_alloc
add_process_to_queue-Queued type k [] [] q cur ne out =
    let n : MessNode = waiter k.ke.current (k.ke.procs k.ke.current).pid type in
    rw
      (
        ne→== k.free_mem_pointer null ne,
        load-ok k.ke.current k.ke cur,
        ne→== k.free_mem_pointer null ne,
        eq→== k.mess_first null q.0,
        eq→== k.mess_last null q.1,
      )
      (returns (
        refl,
        (
          (refl, ne, ap (λ (r : MessNode). r.next) (update_self k.mess_nodes k.free_mem_pointer n)),
          (refl, tt),
          refl,
        ),
        update_self k.mess_nodes k.free_mem_pointer n,
        λ a h. cc,
      ))
add_process_to_queue-Queued type k [] (s ∷ ss) q cur ne out = absurd q
add_process_to_queue-Queued type k (x ∷ xs) stale q cur ne out =
    let new : Ptr = k.free_mem_pointer in
    let l : Ptr = k.mess_last in
    let n : MessNode = waiter k.ke.current (k.ke.procs k.ke.current).pid type in
    let first_ne : k.mess_first ≢ null = λ e. q.0.1 (sym q.0.0 ∙ e) in
    let last_ne : l ≢ null = last_ne k x xs stale q in
    rw
      (
        ne→== new null ne,
        load-ok k.ke.current k.ke cur,
        ne→== new null ne,
        ne→== k.mess_first null first_ne,
        ne→== l null last_ne,
      )
      (returns (
        refl,
        (
          subst (λ ys. Links (next_of (linked k.mess_nodes new l n)) k.mess_first (x ∷ ys) null)
              (sym (append-nil (xs ++ new ∷ [])))
              (linked-Links k.mess_nodes k.mess_first x new l xs stale n q.0 q.1 q.2 out ne refl),
          subst (λ ys. Distinct (x ∷ ys)) (sym (append-nil (xs ++ new ∷ [])))
              (Distinct-end new (x ∷ xs) stale q.1 out),
          sym (last_from-append x new xs),
        ),
        linked_self k.mess_nodes x new l xs n q.2 out,
        λ a h. linked_others k.mess_nodes new l a n (λ e. cc (ap (λ b. has b (x ∷ xs)) e)),
      ))

-- AddProcessToQueue leaves the scheduler as it is.
pub add_process_to_queue-ke :
    (type : ℕ) (k : Kernel) (xs stale : List Ptr)
    → Queued k xs stale
    → k.ke.current ≢ null
    → k.free_mem_pointer ≢ null
    → Returns (λ _ k'. k'.ke ≡ k.ke) (add_process_to_queue type k)
unfolding add_process_to_queue mm_alloc
add_process_to_queue-ke type k [] [] q cur ne =
    rw
      (
        ne→== k.free_mem_pointer null ne,
        load-ok k.ke.current k.ke cur,
        ne→== k.free_mem_pointer null ne,
        eq→== k.mess_first null q.0,
        eq→== k.mess_last null q.1,
      )
      (returns refl)
add_process_to_queue-ke type k [] (s ∷ ss) q cur ne = absurd q
add_process_to_queue-ke type k (x ∷ xs) stale q cur ne =
    rw
      (
        ne→== k.free_mem_pointer null ne,
        load-ok k.ke.current k.ke cur,
        ne→== k.free_mem_pointer null ne,
        ne→== k.mess_first null (λ e. q.0.1 (sym q.0.0 ∙ e)),
        ne→== k.mess_last null (last_ne k x xs stale q),
      )
      (returns refl)
