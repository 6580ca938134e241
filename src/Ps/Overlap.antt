-- ===== src/Ps/Overlap.antt =====
-- base/ps/ps.c: the copy of the argument string that PsCreateProcess makes, and the memory it allocates.
use arcos_os.Prelude.{ℕ, ◌+◌, ◌%◌, ◌<◌, ◌≡◌, ◌≢◌, ◌∙◌, ap, inl, List, length, arith, ne→==, lt→ltb}
use arcos_os.Prelude.Run.{Returns, returns}
use arcos_os.Types.{Ptr, null, ulong_mod}
use arcos_os.Kernel.{Kernel}
use arcos_os.Ke.Chain.{store-ok}
use arcos_os.Mm.{mm_alloc, align_memory}
use arcos_os.Rtl.Text.{Text, IsString}
use arcos_os.Rtl.Copy.{Text-end, string_length-length, copy_string-Text}
use arcos_os.Ps.Process.{copy_args_in}

aligned : (p : Ptr) → p % 4 ≡ 0 → p + 3 < ulong_mod → align_memory p ≡ p
unfolding align_memory
aligned p e small = omega arith

-- PsCreateProcess asks for as many bytes as an argument string has characters. Where that is a
-- multiple of 4, not 0, and memory is aligned, the copy of the string begins at the old end of the memory
-- handed out, and its terminator is stored right behind the new end, in the first byte of the next block.
-- The loops need one round more than the string has characters.
pub copy_args_in-overlap :
    (fuel : ℕ) (process args : Ptr) (k : Kernel) (cs : List ℕ)
    → process ≢ null
    → args ≢ null
    → Text k.bytes args cs
    → IsString cs
    → 0 < length cs
    → length cs % 4 ≡ 0
    → k.free_mem_pointer % 4 ≡ 0
    → k.free_mem_pointer + length cs + 3 < ulong_mod
    → args + length cs < k.free_mem_pointer
    → length cs < fuel
    → Returns
        (λ _ k'.
          Text k'.bytes k.free_mem_pointer cs
          × (k'.free_mem_pointer ≡ k.free_mem_pointer + length cs)
          × (k'.bytes k'.free_mem_pointer ≡ 0))
        (copy_args_in fuel process args k)
unfolding copy_args_in mm_alloc
copy_args_in-overlap fuel process args k cs process_ne args_ne t s some_chars n4 p4 small before f =
    let p : Ptr = k.free_mem_pointer in
    let (m', run, copy, kept) = copy_string-Text fuel p args k.bytes cs t s (inl before) f in
    let moved_to : align_memory ((p + length cs) % ulong_mod) ≡ p + length cs =
      ap align_memory (omega (arith, small))
      ∙ aligned (p + length cs) (omega (arith, n4, p4)) small in
    rw
      (
        ne→== args null args_ne,
        string_length-length fuel k.bytes args cs t s f,
        lt→ltb 0 (length cs) some_chars,
        run,
        store-ok process (λ r. record r { args = p; context = record r.context { a0 = p } }) k.ke
            process_ne,
      )
      (returns (copy, moved_to, ap m' moved_to ∙ Text-end m' p cs copy))
