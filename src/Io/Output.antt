-- ===== src/Io/Output.antt =====
-- base/io/io.c: the strings that wait for output, as a list.
use arcos_os.Prelude.{
  ℕ, zero, suc, ◌+◌, ◌<◌, ◌≡◌, ◌≢◌, refl, ◌∙◌, sym, ap, subst, inl, List, [], ◌∷◌, ◌++◌, length,
  append_assoc, append-nil, arith, eq→==, ne→==,
}
use arcos_os.Prelude.Run.{Cmd, pure, ◌>>◌, Returns, returns, Returns-bind, Returns-weaken}
use arcos_os.Types.{Ptr, null}
use arcos_os.Mm.{mm_alloc, mm_free}
use arcos_os.Rtl.Text.{Text, IsString}
use arcos_os.Io.State.{Io, BufferNode}
use arcos_os.Io.Files.{append_output, io_write_serial}
use arcos_os.Rtl.Memory.{Bytes}
use arcos_os.Rtl.Copy.{copy_string-Text}
use arcos_os.Io.Interrupts.{next_output, transmitter_interrupt_handler}

-- A node of the output queue with its string.
pub record Output : Type 0 where
  pub node : Ptr
  pub text : List ℕ

-- The nodes behind `f` up to the last one, `l`.
abbrev pub Linked : (Ptr → BufferNode) → Bytes → Ptr → Ptr → List Output → Type 0
Linked nodes m f l [] = l ≡ f
Linked nodes m f l (y ∷ ys) =
    (f ≢ l)
    × ((nodes f).next ≡ y.node)
    × (y.node ≢ null)
    × Text m y.node y.text
    × IsString y.text
    × Linked nodes m y.node l ys

-- `rest` is what is left of the first string, `ys` are the nodes behind the first one.
pub record IsSending (s : Io) (rest : List ℕ) (ys : List Output) : Type 0 where
  pub pointer_ne : s.output_pointer ≢ null
  pub first_ne : s.buffer_queue.first ≢ null
  pub text : Text s.kernel.bytes s.output_pointer rest
  pub string : IsString rest
  pub linked : Linked s.buffer_nodes s.kernel.bytes s.buffer_queue.first s.buffer_queue.last ys

abbrev pub IsIdle : Io → Type 0
IsIdle s = (s.output_pointer ≡ null) × (s.buffer_queue.first ≡ null) × (s.buffer_queue.last ≡ null)

-- All characters that wait.
abbrev pub waiting_text : List Output → List ℕ
waiting_text [] = []
waiting_text (y ∷ ys) = y.text ++ waiting_text ys

-- An interrupt for each character, and one at the end of each string.
abbrev pub interrupts : List ℕ → List Output → ℕ
interrupts (c ∷ cs) ys = suc (interrupts cs ys)
interrupts [] [] = 1
interrupts [] (y ∷ ys) = suc (interrupts y.text ys)

abbrev pub transmit : ℕ → Cmd Io (Unit {0})
transmit zero = pure tt
transmit (suc n) = do transmitter_interrupt_handler; transmit n

-- What an interrupt leaves alone.
abbrev pub SameRest : Io → Io → Type 0
SameRest s s' = s' ≡ record s {
  buffer_queue = s'.buffer_queue;
  output_pointer = s'.output_pointer;
  display = s'.display;
}

module _ (s : Io) where
  sends-char :
      (c : ℕ) (cs : List ℕ) (ys : List Output)
      → IsSending s (c ∷ cs) ys
      → Returns
          (λ _ s'. IsSending s' cs ys × (s'.display ≡ s.display ++ c ∷ []) × SameRest s s')
          (transmitter_interrupt_handler s)
  unfolding transmitter_interrupt_handler
  sends-char c cs ys h =
      rw
        (
          ne→== s.output_pointer null h.pointer_ne,
          ne→== (s.kernel.bytes s.output_pointer) 0 (rw h.text.0 h.string.0),
        )
        (returns (
          record {
            pointer_ne = λ e. omega (arith, e);
            first_ne = h.first_ne;
            text = h.text.1;
            string = h.string.1;
            linked = h.linked;
          },
          ap (λ x. s.display ++ x ∷ []) h.text.0,
          refl,
        ))

  ends-last :
      IsSending s [] []
      → Returns
          (λ _ s'. IsIdle s' × (s'.display ≡ s.display) × SameRest s s')
          (transmitter_interrupt_handler s)
  unfolding transmitter_interrupt_handler next_output mm_free
  ends-last h =
      rw
        (
          ne→== s.output_pointer null h.pointer_ne,
          eq→== (s.kernel.bytes s.output_pointer) 0 h.text,
          eq→== s.buffer_queue.first s.buffer_queue.last (sym h.linked),
          ne→== s.buffer_queue.first null h.first_ne,
        )
        (returns ((refl, refl, refl), refl, refl))

  ends-next :
      (y : Output) (ys : List Output)
      → IsSending s [] (y ∷ ys)
      → Returns
          (λ _ s'. IsSending s' y.text ys × (s'.display ≡ s.display) × SameRest s s')
          (transmitter_interrupt_handler s)
  unfolding transmitter_interrupt_handler next_output mm_free
  ends-next y ys h =
      rw
        (
          ne→== s.output_pointer null h.pointer_ne,
          eq→== (s.kernel.bytes s.output_pointer) 0 h.text,
          ne→== s.buffer_queue.first s.buffer_queue.last h.linked.0,
          ne→== s.buffer_queue.first null h.first_ne,
        )
        (returns (
          record {
            pointer_ne = λ e. h.linked.2 (sym h.linked.1 ∙ e);
            first_ne = λ e. h.linked.2 (sym h.linked.1 ∙ e);
            text = subst (λ p. Text s.kernel.bytes p y.text) (sym h.linked.1) h.linked.3;
            string = h.linked.4;
            linked =
                subst (λ p. Linked s.buffer_nodes s.kernel.bytes p s.buffer_queue.last ys)
                  (sym h.linked.1) h.linked.5;
          },
          refl,
          refl,
        ))

SameRest-trans : (s s' s'' : Io) → SameRest s s' → SameRest s' s'' → SameRest s s''
SameRest-trans s s' s'' e e' =
    e'
    ∙ ap
        (λ (x : Io). record x {
          buffer_queue = s''.buffer_queue;
          output_pointer = s''.output_pointer;
          display = s''.display;
        })
        e

-- While strings wait for output, an interrupt of the transmitter for each of their characters and one at
-- the end of each string put all the characters on the display, in the order in which the strings were
-- queued, and leave the queue empty. They change nothing else.
pub transmit-display :
    (s : Io) (rest : List ℕ) (ys : List Output)
    → IsSending s rest ys
    → Returns
        (λ _ s'. IsIdle s' × (s'.display ≡ s.display ++ (rest ++ waiting_text ys)) × SameRest s s')
        (transmit (interrupts rest ys) s)
transmit-display s (c ∷ cs) ys h = Returns-bind (sends-char s c cs ys h) (λ _ s' one.
    Returns-weaken (transmit-display s' cs ys one.0) (λ _ s'' more. (
      more.0,
      more.1
          ∙ ap (λ d. d ++ (cs ++ waiting_text ys)) one.1
          ∙ append_assoc s.display (c ∷ []) (cs ++ waiting_text ys),
      SameRest-trans s s' s'' one.2 more.2,
    )))
transmit-display s [] [] h =
    Returns-bind (ends-last s h)
      (λ _ s' done. returns (done.0, done.1 ∙ sym (append-nil s.display), done.2))
transmit-display s [] (y ∷ ys) h = Returns-bind (ends-next s y ys h) (λ _ s' one.
    Returns-weaken (transmit-display s' y.text ys one.0) (λ _ s'' more. (
      more.0,
      more.1 ∙ ap (λ d. d ++ (y.text ++ waiting_text ys)) one.1,
      SameRest-trans s s' s'' one.2 more.2,
    )))

-- IoWriteSerial of a string on an idle console starts its output: it copies the string to a new node,
-- which becomes the only one of the queue. The string lies below the free memory.
io_write_serial-IsSending :
    (fuel : ℕ) (buffer size : ℕ) (s : Io) (cs : List ℕ)
    → IsIdle s
    → s.kernel.free_mem_pointer ≢ null
    → Text s.kernel.bytes buffer cs
    → IsString cs
    → buffer + length cs < s.kernel.free_mem_pointer
    → length cs < fuel
    → Returns
        (λ _ s'. IsSending s' cs [] × (s'.display ≡ s.display))
        (io_write_serial fuel buffer size s)
unfolding io_write_serial append_output mm_alloc
io_write_serial-IsSending fuel buffer size s cs idle node_ne t i apart f =
    let p : Ptr = s.kernel.free_mem_pointer in
    let (m', run, copy, kept) =
      copy_string-Text fuel p buffer s.kernel.bytes cs t i (inl apart) f in
    rw (run, ne→== p null node_ne, eq→== s.buffer_queue.first null idle.1)
      (returns (
        record { pointer_ne = node_ne; first_ne = node_ne; text = copy; string = i; linked = refl },
        refl,
      ))
