-- ===== src/Io/Transmit.antt =====
-- base/io/io.c: what IoTransmitterInterruptHandler makes of the queue of output, in any state.
use arcos_os.Prelude.{
  ℕ, ◌≡◌, ◌≢◌, refl, ◌⊎◌, inl, inr, ◌==◌, if◌then◌else◌, List, [], ◌∷◌, ◌++◌, suc, Bool-cases,
  eq→==, ne→==,
}
use arcos_os.Prelude.Run.{ok}
use arcos_os.Types.{Ptr, null}
use arcos_os.Io.State.{Io, IoQueue}
use arcos_os.Io.Files.{empty_queue}
use arcos_os.Io.Interrupts.{transmitter_interrupt_handler, next_output}
use arcos_os.Mm.{mm_free}

-- There is nothing to be sent, or a node in the queue.
abbrev pub CanTransmit : Io → Type 0
CanTransmit s = (s.output_pointer ≡ null) ⊎ (s.buffer_queue.first ≢ null)

-- The queue, the pointer and the display behind the handler.
abbrev pub transmitted : Io → IoQueue × Ptr × List ℕ
transmitted s =
    let next : Ptr = (s.buffer_nodes s.buffer_queue.first).next in
    if s.output_pointer == null
    then (s.buffer_queue, s.output_pointer, s.display)
    else if s.kernel.bytes s.output_pointer == 0
    then (if s.buffer_queue.first == s.buffer_queue.last
        then (empty_queue, null, s.display)
        else (record s.buffer_queue { first = next }, next, s.display))
    else (s.buffer_queue, suc s.output_pointer, s.display ++ s.kernel.bytes s.output_pointer ∷ [])

abbrev pub with_output : Io → IoQueue × Ptr × List ℕ → Io
with_output s o = record s { buffer_queue = o.0; output_pointer = o.1; display = o.2 }

pub transmitter_interrupt_handler-transmitted :
    (s : Io)
    → CanTransmit s
    → transmitter_interrupt_handler s ≡ ok tt (with_output s (transmitted s))
unfolding transmitter_interrupt_handler next_output mm_free
transmitter_interrupt_handler-transmitted s can = elim (Bool-cases (s.output_pointer == null)) [
  | inl off ↦ rw off refl
  | inr on ↦ elim (Bool-cases (s.kernel.bytes s.output_pointer == 0)) [
    | inr char ↦ rw (on, char) refl
    | inl ends ↦
        let first_ne : s.buffer_queue.first ≢ null = elim can [
          | inl e ↦ absurd (cc (eq→== s.output_pointer null e))
          | inr ne ↦ ne
        ] in
        elim (Bool-cases (s.buffer_queue.first == s.buffer_queue.last)) [
          | inl last ↦ rw (on, ends, last, ne→== s.buffer_queue.first null first_ne) refl
          | inr more ↦ rw (on, ends, more, ne→== s.buffer_queue.first null first_ne) refl
        ]
  ]
]
