-- ===== src/Mess/Queue.antt =====
-- base/mess/mess.c: the message queue of a process as a list of messages, and the end of
-- MessSendMessage.
use arcos_os.Prelude.{
  ℕ, zero, suc, ◌≤◌, ◌<◌, ◌≡◌, ◌≢◌, refl, sym, subst, true, false, List, [], ◌∷◌, ◌++◌, arith,
  update, update_self, length, has, has-append, has-last_from, last_from, eq→==, ne→==,
}
use arcos_os.Prelude.Run.{ok, Returns, returns, Returns-weaken}
use arcos_os.Types.{Ptr, null}
use arcos_os.Ke.Chain.{load-ok, store-ok}
use arcos_os.Kernel.{Kernel, Message}
use arcos_os.Mess.Messages.{
  message, set_message, set_message_next, set_message_queue, append_message, add_to_queue,
}

-- The messages from `p` on are those of the list, linked by `next`.
abbrev pub Queue : (Ptr → Message) → Ptr → List Ptr → Type 0
Queue m p [] = p ≡ null
Queue m p (x ∷ xs) = (p ≡ x) × (x ≢ null) × (has x xs ≡ false) × Queue m (m x).next xs

-- The messages that wait for the process `p`.
abbrev pub Waiting : Kernel → Ptr → List Ptr → Type 0
Waiting k p = Queue k.messages (k.ke.procs p).message_queue

pub Queue-frame :
    (m m' : Ptr → Message) (p : Ptr) (xs : List Ptr)
    → Queue m p xs
    → ((a : Ptr) → has a xs ≡ true → (m' a).next ≡ (m a).next)
    → Queue m' p xs
Queue-frame m m' p [] c same = c
Queue-frame m m' p (x ∷ xs) c same =
    let e : (m' x).next ≡ (m x).next = same x (ground arith) in
    (c.0, c.1, c.2, rw e (Queue-frame m m' (m x).next xs c.3 (λ a h. same a (ground arith))))

-- The queue with `q`, which ends in NULL, linked behind its last message.
pub Queue-append :
    (m : Ptr → Message) (x q : Ptr) (xs : List Ptr)
    → Queue m x (x ∷ xs)
    → has q (x ∷ xs) ≡ false
    → q ≢ null
    → (m q).next ≡ null
    → Queue
        (update m (last_from x xs) (set_message_next q (m (last_from x xs))))
        x
        (x ∷ (xs ++ q ∷ []))
unfolding update
Queue-append m x q [] c out ne end =
    (refl, c.1, ground arith, (ground arith, ne, refl, ground (arith, end)))
Queue-append m x q (y ∷ ys) c out ne end =
    let rest : Queue m y (y ∷ ys) = (refl, c.3.1, c.3.2, c.3.3) in
    let grown = Queue-append m y q ys rest (ground arith) ne end in
    let link : (update m (last_from y ys) (set_message_next q (m (last_from y ys))) x).next ≡ y =
      ground (arith, has-last_from y ys, c.3.0) in
    (refl, c.1, ground (arith, has-append x ys (q ∷ [])), rw link grown)

pub message-ok : (p : Ptr) (k : Kernel) → p ≢ null → message p k ≡ ok (k.messages p) k
message-ok p k ne = rw (ne→== p null ne)

pub set_message-ok :
    (p : Ptr) (f : Message → Message) (k : Kernel)
    → p ≢ null
    → set_message p f k ≡ ok tt (record k { messages = update k.messages p (f (k.messages p)) })
set_message-ok p f k ne = rw (ne→== p null ne)

-- The walk to the end of the queue.
pub append_message-ok :
    (fuel : ℕ) (k : Kernel) (x q : Ptr) (xs : List Ptr)
    → Queue k.messages x (x ∷ xs)
    → length xs < fuel
    → append_message fuel x q k
      ≡ ok tt (record k {
        messages =
            update k.messages (last_from x xs) (set_message_next q (k.messages (last_from x xs)));
      })
unfolding append_message
append_message-ok zero k x q xs c f = absurd (omega arith)
append_message-ok (suc fuel) k x q [] c f = rw (
  message-ok x k c.1,
  eq→== (k.messages x).next null c.3,
  set_message-ok x (set_message_next q) k c.1,
)
append_message-ok (suc fuel) k x q (y ∷ ys) c f =
    let link : (k.messages x).next ≡ y = c.3.0 in
    let ih = append_message-ok fuel k y q ys (refl, c.3.1, c.3.2, c.3.3) (omega arith) in
    rw (message-ok x k c.1, ne→== (k.messages x).next null (rw link c.3.1), link) ih

module _ (fuel : ℕ) (k : Kernel) where
  append_message-Queue :
      (head x q : Ptr) (xs : List Ptr)
      → Queue k.messages head (x ∷ xs)
      → q ≢ null
      → has q (x ∷ xs) ≡ false
      → (k.messages q).next ≡ null
      → length xs < fuel
      → Returns
          (λ _ k'. Queue k'.messages head (x ∷ (xs ++ q ∷ [])) × (k'.ke ≡ k.ke))
          (append_message fuel head q k)
  append_message-Queue head x q xs c ne out end f =
      let c' : Queue k.messages x (x ∷ xs) = (refl, c.1, c.2, c.3) in
      subst
        (λ h.
          Returns (λ _ k'. Queue k'.messages h (x ∷ (xs ++ q ∷ [])) × (k'.ke ≡ k.ke))
            (append_message fuel h q k))
        (sym c.0)
        (rw (append_message-ok fuel k x q xs c' f)
          (returns (Queue-append k.messages x q xs c' out ne end, refl)))

  -- The end of MessSendMessage puts a message, which is not yet in the queue and has no successor, at
  -- the end of the receiver's message queue; the loop needs a round for each message.
  add_to_queue-Waiting :
      (receiver new : Ptr) (xs : List Ptr)
      → Waiting k receiver xs
      → receiver ≢ null
      → new ≢ null
      → has new xs ≡ false
      → (k.messages new).next ≡ null
      → length xs ≤ fuel
      → Returns (λ _ k'. Waiting k' receiver (xs ++ new ∷ [])) (add_to_queue fuel receiver new k)
  unfolding add_to_queue
  add_to_queue-Waiting receiver new [] c ne ne' out end f =
      rw
        (
          load-ok receiver k.ke ne,
          eq→== (k.ke.procs receiver).message_queue null c,
          store-ok receiver (set_message_queue new) k.ke ne,
        )
        (returns (
          rw (update_self k.ke.procs receiver (set_message_queue new (k.ke.procs receiver)))
            (refl, ne', refl, end)))
  add_to_queue-Waiting receiver new (x ∷ xs) c ne ne' out end f =
      rw (load-ok receiver k.ke ne, ne→== (k.ke.procs receiver).message_queue null (rw c.0 c.1))
        (Returns-weaken
          (append_message-Queue (k.ke.procs receiver).message_queue x new xs c ne' out end
            (omega arith))
          (λ _ k' (queue, same). rw same queue))
