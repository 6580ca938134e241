-- ===== src/Mm.antt =====
-- base/mm/mm.c (base/mm/nondynmm.c is the same text): the allocator, which hands out memory from a
-- rising pointer and never takes it back.
pub mod Blocks
use arcos_os.Prelude.{ℕ, ◌+◌, ◌-◌, ◌%◌}
use arcos_os.Prelude.Run.{Cmd, get, modify, pure, ◌>>=◌, ◌>>◌}
use arcos_os.Types.{Ptr, ulong_mod}
use arcos_os.Kernel.{Kernel}

-- ALIGN_MEMORY: `(X + 3) & ~3` on 32 bits.
unfoldable pub align_memory : ℕ → Ptr
align_memory x = let y = (x + 3) % ulong_mod in y - y % 4

-- MmInitialize; the address comes from the hardware layer.
unfoldable pub mm_initialize : Ptr → Cmd Kernel (Unit {0})
mm_initialize first_usable = modify λ k. record k { free_mem_pointer = first_usable }

unfoldable pub mm_get_mem_pointer : Cmd Kernel Ptr
mm_get_mem_pointer = get λ k. k.free_mem_pointer

unfoldable pub mm_alloc : ℕ → Cmd Kernel Ptr
mm_alloc size = do
  p ← get λ k. k.free_mem_pointer
  modify λ k. record k { free_mem_pointer = align_memory ((k.free_mem_pointer + size) % ulong_mod) }
  pure p

-- MmFree has an empty body.
unfoldable pub mm_free : Ptr → Cmd Kernel (Unit {0})
mm_free p = pure tt
