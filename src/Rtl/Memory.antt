-- ===== src/Rtl/Memory.antt =====
-- base/rtl/memory.c, on a memory that maps addresses to bytes. Addresses do not wrap.
use arcos_os.Prelude.{ℕ, zero, suc, ◌+◌, update}

abbrev pub Bytes : Type 0
Bytes = ℕ → ℕ

-- RtlCopyMemory: byte by byte, in ascending order.
unfoldable pub copy_memory : Bytes → ℕ → ℕ → ℕ → Bytes
copy_memory m dest src zero = m
copy_memory m dest src (suc count) = copy_memory (update m dest (m src)) (dest + 1) (src + 1) count

-- RtlFillMemory
unfoldable pub fill_memory : Bytes → ℕ → ℕ → ℕ → Bytes
fill_memory m dest val zero = m
fill_memory m dest val (suc count) = fill_memory (update m dest val) (dest + 1) val count
