-- ===== src/Mess/Forget.antt =====
-- base/mess/mess.c: ResumeMethod, which takes the node of a process that stops waiting out of the queue.
use arcos_os.Prelude.{
  ℕ, zero, suc, ◌<◌, ◌≡◌, ◌≢◌, refl, sym, ap, ◌∙◌, subst, true, false, List, [], ◌∷◌, ◌++◌, arith,
  length, has, last_from, eq→==, ne→==, append_assoc,
}
use arcos_os.Prelude.Links.{Links, Distinct, Links-frame, Distinct-behind}
use arcos_os.Prelude.Run.{ok, Returns, returns, Returns-ends}
use arcos_os.Types.{Ptr, null, Status}
use arcos_os.Ke.Chain.{load-ok}
use arcos_os.Kernel.{Kernel, MessNode}
use arcos_os.Mess.WaitQueue.{remove_process_from_queue, forget_waiter, mess_resume}
use arcos_os.Mess.Waiters.{next_of, Queued, mess_node-ok}
use arcos_os.Mess.Removal.{OnlyLinks, left_over, remove_process_from_queue-Queued}

-- No node in the list is of the process with the number.
abbrev pub Elsewhere : (Ptr → MessNode) → ℕ → List Ptr → Type 0
Elsewhere m pid [] = Unit {0}
Elsewhere m pid (x ∷ xs) = ((m x).pid ≢ pid) × Elsewhere m pid xs

pub Elsewhere-frame :
    (m m' : Ptr → MessNode) (pid : ℕ) (xs : List Ptr)
    → Elsewhere m pid xs
    → ((a : Ptr) → has a xs ≡ true → m' a ≡ m a)
    → Elsewhere m' pid xs
Elsewhere-frame m m' pid [] e same = tt
Elsewhere-frame m m' pid (x ∷ xs) e same = (
  (λ q. e.0 (ap (λ (n : MessNode). n.pid) (sym (same x (ground arith))) ∙ q)),
  Elsewhere-frame m m' pid xs e.1 (λ a h. same a (ground arith)),
)

-- The queue with one node, its only one of the process with the number, set apart.
pub record At (k : Kernel) (pid : ℕ) (before : List Ptr) (it : Ptr) (behind stale : List Ptr)
    : Type 0 where
  pub queued : Queued k (before ++ it ∷ behind) stale
  pub node : (k.mess_nodes it).pid ≡ pid
  pub not_before : Elsewhere k.mess_nodes pid before
  pub not_behind : Elsewhere k.mess_nodes pid (behind ++ stale)

module _ (k : Kernel) where
  pub Queued-Links :
      (before : List Ptr) (it : Ptr) (behind stale : List Ptr)
      → Queued k (before ++ it ∷ behind) stale
      → Links (next_of k.mess_nodes) k.mess_first (before ++ it ∷ (behind ++ stale)) null
        × Distinct (before ++ it ∷ (behind ++ stale))
  Queued-Links [] it behind stale q = (q.0, q.1)
  Queued-Links (x ∷ xs) it behind stale q =
      let e = append_assoc xs (it ∷ behind) stale in
      (
        subst (λ ys. Links (next_of k.mess_nodes) k.mess_first (x ∷ ys) null) e q.0,
        subst (λ ys. Distinct (x ∷ ys)) e q.1,
      )

  pub Links-node :
      (p it : Ptr) (before rest : List Ptr)
      → Links (next_of k.mess_nodes) p (before ++ it ∷ rest) null
      → (it ≢ null) × Links (next_of k.mess_nodes) (k.mess_nodes it).next rest null
  Links-node p it [] rest c = (c.1, c.2)
  Links-node p it (x ∷ xs) rest c = Links-node (k.mess_nodes x).next it xs rest c.2

  forget_waiter-Elsewhere :
      (fuel pid : ℕ) (iterator prev : Ptr) (ns : List Ptr)
      → Links (next_of k.mess_nodes) iterator ns null
      → Elsewhere k.mess_nodes pid ns
      → length ns < fuel
      → forget_waiter fuel pid iterator prev k ≡ ok tt k
  unfolding forget_waiter
  forget_waiter-Elsewhere zero pid iterator prev ns c e f = absurd (omega arith)
  forget_waiter-Elsewhere (suc fuel) pid iterator prev [] c e f = rw (eq→== iterator null c)
  forget_waiter-Elsewhere (suc fuel) pid iterator prev (x ∷ xs) c e f =
      let chain =
        subst (λ a. Links (next_of k.mess_nodes) (next_of k.mess_nodes a) xs null) (sym c.0) c.2 in
      rw
        (
          ne→== iterator null (λ q. c.1 (sym c.0 ∙ q)),
          mess_node-ok iterator k (λ q. c.1 (sym c.0 ∙ q)),
          ne→== (k.mess_nodes iterator).pid pid
              (λ q. e.0 (ap (λ a. (k.mess_nodes a).pid) (sym c.0) ∙ q)),
          mess_node-ok iterator k (λ q. c.1 (sym c.0 ∙ q)),
        )
        (forget_waiter-Elsewhere fuel pid (k.mess_nodes iterator).next iterator xs chain e.1
          (omega arith))

  -- The loop comes to the node, with rounds left for those behind it.
  forget_waiter-reaches :
      (fuel pid : ℕ) (iterator prev it : Ptr) (before rest : List Ptr)
      → Links (next_of k.mess_nodes) iterator (before ++ it ∷ rest) null
      → Elsewhere k.mess_nodes pid before
      → length (before ++ it ∷ rest) < fuel
      → (r : ℕ) × (length rest < r)
        × (forget_waiter fuel pid iterator prev k
            ≡ forget_waiter (suc r) pid it (last_from prev before) k)
  unfolding forget_waiter
  forget_waiter-reaches zero pid iterator prev it before rest c e f = absurd (omega arith)
  forget_waiter-reaches (suc fuel) pid iterator prev it [] rest c e f =
      (fuel, omega arith, ap (λ a. forget_waiter (suc fuel) pid a prev k) c.0)
  forget_waiter-reaches (suc fuel) pid iterator prev it (x ∷ xs) rest c e f =
      let chain =
        subst (λ a. Links (next_of k.mess_nodes) (next_of k.mess_nodes a) (xs ++ it ∷ rest) null)
          (sym c.0) c.2 in
      let (r, more, run) =
        forget_waiter-reaches fuel pid (k.mess_nodes iterator).next iterator it xs rest chain e.1
          (omega arith) in
      (
        r,
        more,
        rw
            (
              ne→== iterator null (λ q. c.1 (sym c.0 ∙ q)),
              mess_node-ok iterator k (λ q. c.1 (sym c.0 ∙ q)),
              ne→== (k.mess_nodes iterator).pid pid
                  (λ q. e.0 (ap (λ a. (k.mess_nodes a).pid) (sym c.0) ∙ q)),
              mess_node-ok iterator k (λ q. c.1 (sym c.0 ∙ q)),
            )
            (run ∙ ap (λ p. forget_waiter (suc r) pid it (last_from p xs) k) c.0),
      )

  pub previous_same :
      (p it : Ptr) (before rest : List Ptr)
      → Links (next_of k.mess_nodes) p (before ++ it ∷ rest) null
      → last_from p before ≡ last_from it before
  previous_same p it [] rest c = c.0
  previous_same p it (x ∷ xs) rest c = refl

  -- What follows a node that has been taken out.
  module _ (k' : Kernel) (before : List Ptr) (it : Ptr) (rest : List Ptr)
      (others : (a : Ptr) → has a before ≡ false → k'.mess_nodes a ≡ k.mess_nodes a)
      (d : Distinct (before ++ it ∷ rest)) where
    pub rest_same : (a : Ptr) → has a (it ∷ rest) ≡ true → k'.mess_nodes a ≡ k.mess_nodes a
    rest_same a on = others a (Distinct-behind before (it ∷ rest) a d on)

    pub rest_Links :
        Links (next_of k.mess_nodes) (k.mess_nodes it).next rest null
        → Links (next_of k'.mess_nodes) (k'.mess_nodes it).next rest null
    rest_Links c = rw (rest_same it (rw (eq→== it it refl))) (
        Links-frame (next_of k.mess_nodes) (next_of k'.mess_nodes) (k.mess_nodes it).next null rest
          c (λ a on. ap (λ (n : MessNode). n.next) (rest_same a (ground arith))))

    pub rest_Elsewhere :
        (pid : ℕ) → Elsewhere k.mess_nodes pid rest → Elsewhere k'.mess_nodes pid rest
    rest_Elsewhere pid e =
        Elsewhere-frame k.mess_nodes k'.mess_nodes pid rest e (λ a on. rest_same a (ground arith))

module _ (fuel : ℕ) (k : Kernel) (p : Ptr) (ne : p ≢ null) (before : List Ptr) (it : Ptr)
    (behind stale : List Ptr) (at : At k (k.ke.procs p).pid before it behind stale)
    (enough : length (before ++ it ∷ (behind ++ stale)) < fuel) where
  abbrev number : ℕ
  number = (k.ke.procs p).pid

  chain : Links (next_of k.mess_nodes) k.mess_first (before ++ it ∷ (behind ++ stale)) null
  chain = (Queued-Links k before it behind stale at.queued).0

  node : (it ≢ null) × Links (next_of k.mess_nodes) (k.mess_nodes it).next (behind ++ stale) null
  node = Links-node k k.mess_first it before (behind ++ stale) chain

  forget_waiter-removes :
      (r : ℕ) (status : Status) (k' : Kernel)
      → length (behind ++ stale) < r
      → remove_process_from_queue it (last_from it before) k ≡ ok status k'
      → OnlyLinks k before k'
      → forget_waiter (suc r) number it (last_from it before) k ≡ ok tt k'
  unfolding forget_waiter
  forget_waiter-removes r status k' more run only =
      let d = (Queued-Links k before it behind stale at.queued).1 in
      rw
        (
          ne→== it null node.0,
          mess_node-ok it k node.0,
          eq→== (k.mess_nodes it).pid number at.node,
          run,
          mess_node-ok it k' node.0,
        )
        (forget_waiter-Elsewhere k' r number (k'.mess_nodes it).next it (behind ++ stale)
          (rest_Links k k' before it (behind ++ stale) only.others d node.1)
          (rest_Elsewhere k k' before it (behind ++ stale) only.others d number at.not_behind) more)

  -- ResumeMethod takes the node of the process out of the queue and leaves the others there; a node that was
  -- the last of several stays linked behind them. Its loop needs one round more than there are nodes.
  pub mess_resume-Queued :
      Returns
        (λ _ k'.
          Queued k' (before ++ behind) (left_over before it behind stale) × OnlyLinks k before k')
        (mess_resume fuel p k)
  unfolding mess_resume
  mess_resume-Queued =
      let (r, more, run) =
        forget_waiter-reaches k fuel number k.mess_first k.mess_first it before (behind ++ stale)
          chain at.not_before enough in
      let (status, k', removed, post) =
        Returns-ends (remove_process_from_queue-Queued it k before behind stale at.queued) in
      rw
        (
          load-ok p k.ke ne,
          run,
          previous_same k k.mess_first it before (behind ++ stale) chain,
          forget_waiter-removes r status k' more removed post.2,
        )
        (returns (post.1, post.2))
