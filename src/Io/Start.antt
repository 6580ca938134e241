-- ===== src/Io/Start.antt =====
-- base/io/io.c: IoInitialize where memory does not run out.
use arcos_os.Prelude.{
  ℕ, ◌+◌, ◌%◌, ◌<◌, ◌≡◌, ◌≢◌, refl, ◌∙◌, arith, update_self, update_ne, ne→==, ==→ne,
}
use arcos_os.Prelude.Run.{Returns, returns}
use arcos_os.Types.{Ptr, null, ulong_mod, success}
use arcos_os.Kernel.{Kernel, header_to_body}
use arcos_os.Mm.{align_memory, mm_alloc}
use arcos_os.Ob.Create.{with_type_at, create_object_type-with_type, listed_at, create_object-typed}
use arcos_os.Io.State.{Io, serial_read, serial_write, lcd_write, no_file_method}
use arcos_os.Io.Files.{io_initialize, finish_initialize}

-- What IoInitialize leaves: two files with their methods, and nothing waiting.
pub record IsReady (s s' : Io) : Type 0 where
  pub scheduler : s'.kernel.ke ≡ s.kernel.ke
  pub memory : s'.kernel.free_mem_pointer ≡ s.kernel.free_mem_pointer + 148
  pub keyboard : s'.fifo.count ≡ 0
  pub serial : s'.files s'.serial_file ≡ record { write = serial_write; read = serial_read }
  pub lcd : s'.files s'.lcd_file ≡ record { write = lcd_write; read = no_file_method }
  pub readers : s'.waiting_queue ≡ record { first = null; last = null }
  pub output : s'.buffer_queue ≡ record { first = null; last = null }

pub align-aligned :
    (p n q : ℕ) → q % 4 ≡ 0 → p + n ≡ q → q < ulong_mod → align_memory ((p + n) % ulong_mod) ≡ q
unfolding align_memory
align-aligned p n q a e room = omega (arith, a, e, room)

module _ (s : Io) (aligned : s.kernel.free_mem_pointer % 4 ≡ 0)
    (some_memory : s.kernel.free_mem_pointer ≢ null)
    (room : s.kernel.free_mem_pointer + 148 < ulong_mod) where
  abbrev base : Ptr
  base = s.kernel.free_mem_pointer

  abbrev typed : Kernel
  typed = with_type_at 102 s.kernel

  abbrev with_serial : Kernel
  with_serial = listed_at typed (base + 32) (base + 92)

  abbrev with_lcd : Kernel
  with_lcd = listed_at with_serial (base + 32) (base + 132)

  header_body : (h b : Ptr) → h + 32 ≡ b → b < ulong_mod → header_to_body h ≡ b
  header_body h b e lt = omega (arith, e, lt)

  pub io_initialize-IsReady :
      Returns (λ status s'. (status ≡ success) × IsReady s s') (io_initialize s)
  unfolding io_initialize finish_initialize mm_alloc
  io_initialize-IsReady =
      rw
        (
          create_object_type-with_type 102 s.kernel (==→ne 102 0 refl) aligned some_memory
              (omega (arith, room)),
          create_object-typed (base + 32) 8 (base + 92) typed (λ e. omega (arith, e))
              (λ e. omega (arith, e))
              (align-aligned (base + 52) 40 (base + 92) (omega (arith, aligned)) (omega arith)
                (omega (arith, room))),
          header_body (base + 52) (base + 84) (omega arith) (omega (arith, room)),
          ne→== (base + 84) null (λ e. omega (arith, e)),
          create_object-typed (base + 32) 8 (base + 132) with_serial (λ e. omega (arith, e))
              (λ e. omega (arith, e))
              (align-aligned (base + 92) 40 (base + 132) (omega (arith, aligned)) (omega arith)
                (omega (arith, room))),
          header_body (base + 92) (base + 124) (omega arith) (omega (arith, room)),
          ne→== (base + 124) null (λ e. omega (arith, e)),
          align-aligned (base + 132) 8 (base + 140) (omega (arith, aligned)) (omega arith)
              (omega (arith, room)),
          align-aligned (base + 140) 8 (base + 148) (omega (arith, aligned)) (omega arith)
              (omega (arith, room)),
        )
        (returns (
          refl,
          record {
            scheduler = refl;
            memory = refl;
            keyboard = refl;
            serial =
                update_ne _ (base + 124) _ (base + 84) (λ e. omega (arith, e))
                ∙ update_self s.files (base + 84) _;
            lcd = update_self _ (base + 124) _;
            readers = refl;
            output = refl;
          },
        ))
