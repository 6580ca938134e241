-- ===== src/Mess/Passing.antt =====
-- base/mess/mess.c: the loop of MessSendMessage over the waiting processes passes over the nodes of others.
use arcos_os.Prelude.{
  ℕ, zero, suc, ◌<◌, ◌≡◌, ◌≢◌, sym, ap, ◌∙◌, subst, List, [], ◌∷◌, ◌++◌, arith, length, last_from,
  eq→==, ne→==,
}
use arcos_os.Prelude.Links.{Links}
use arcos_os.Prelude.Run.{ok}
use arcos_os.Types.{Ptr, null}
use arcos_os.Kernel.{Kernel}
use arcos_os.Mess.Messages.{wake_receiver, wake_receivers}
use arcos_os.Mess.Waiters.{next_of, mess_node-ok}
use arcos_os.Mess.Forget.{Elsewhere}

-- The loop over the waiting processes passes over the nodes of others.
pub wake_receivers-Elsewhere :
    (fuel rounds pid type : ℕ) (new receiver iterator prev : Ptr) (k : Kernel) (ns : List Ptr)
    → Links (next_of k.mess_nodes) iterator ns null
    → Elsewhere k.mess_nodes pid ns
    → length ns < rounds
    → wake_receivers fuel rounds pid type new receiver iterator prev k ≡ ok tt k
unfolding wake_receivers wake_receiver
wake_receivers-Elsewhere fuel zero pid type new receiver iterator prev k ns c e f =
    absurd (omega arith)
wake_receivers-Elsewhere fuel (suc rounds) pid type new receiver iterator prev k [] c e f =
    rw (eq→== iterator null c)
wake_receivers-Elsewhere fuel (suc rounds) pid type new receiver iterator prev k (x ∷ xs) c e f =
    let ne : iterator ≢ null = λ q. c.1 (sym c.0 ∙ q) in
    let other : (k.mess_nodes iterator).pid ≢ pid =
      λ q. e.0 (ap (λ a. (k.mess_nodes a).pid) (sym c.0) ∙ q) in
    let chain =
      subst (λ a. Links (next_of k.mess_nodes) (next_of k.mess_nodes a) xs null) (sym c.0) c.2 in
    rw
      (
        ne→== iterator null ne,
        mess_node-ok iterator k ne,
        ne→== (k.mess_nodes iterator).pid pid other,
        mess_node-ok iterator k ne,
      )
      (wake_receivers-Elsewhere fuel rounds pid type new receiver (k.mess_nodes iterator).next
        iterator k xs chain e.1 (omega arith))

-- The loop comes to the node behind them, with rounds left for the nodes that follow.
pub wake_receivers-reaches :
    (fuel rounds pid type : ℕ) (new receiver iterator prev it : Ptr) (k : Kernel)
    (before rest : List Ptr)
    → Links (next_of k.mess_nodes) iterator (before ++ it ∷ rest) null
    → Elsewhere k.mess_nodes pid before
    → length (before ++ it ∷ rest) < rounds
    → (r : ℕ) × (length rest < r)
      × (wake_receivers fuel rounds pid type new receiver iterator prev k
          ≡ wake_receivers fuel (suc r) pid type new receiver it (last_from prev before) k)
unfolding wake_receivers wake_receiver
wake_receivers-reaches fuel zero pid type new receiver iterator prev it k before rest c e f =
    absurd (omega arith)
wake_receivers-reaches fuel (suc rounds) pid type new receiver iterator prev it k [] rest c e f = (
  rounds,
  omega arith,
  ap (λ a. wake_receivers fuel (suc rounds) pid type new receiver a prev k) c.0,
)
wake_receivers-reaches fuel (suc rounds) pid type new receiver iterator prev it k (x ∷ xs) rest c e
      f =
    let ne : iterator ≢ null = λ q. c.1 (sym c.0 ∙ q) in
    let other : (k.mess_nodes iterator).pid ≢ pid =
      λ q. e.0 (ap (λ a. (k.mess_nodes a).pid) (sym c.0) ∙ q) in
    let chain =
      subst (λ a. Links (next_of k.mess_nodes) (next_of k.mess_nodes a) (xs ++ it ∷ rest) null)
        (sym c.0) c.2 in
    let (r, more, run) =
      wake_receivers-reaches fuel rounds pid type new receiver (k.mess_nodes iterator).next iterator
        it k xs rest chain e.1 (omega arith) in
    (
      r,
      more,
      rw
          (
            ne→== iterator null ne,
            mess_node-ok iterator k ne,
            ne→== (k.mess_nodes iterator).pid pid other,
            mess_node-ok iterator k ne,
          )
          (run
            ∙ ap (λ a. wake_receivers fuel (suc r) pid type new receiver it (last_from a xs) k)
                c.0),
    )
