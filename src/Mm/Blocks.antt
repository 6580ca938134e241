-- ===== src/Mm/Blocks.antt =====
-- base/mm/mm.c: sequences of calls of MmAlloc.
use arcos_os.Prelude.{ℕ, ◌+◌, ◌%◌, ◌≤◌, ◌<◌, ◌≡◌, List, [], ◌∷◌, arith}
use arcos_os.Prelude.Run.{Cmd, pure, ◌>>=◌, Returns, returns, Returns-bind}
use arcos_os.Types.{Ptr, ulong_mod}
use arcos_os.Kernel.{Kernel}
use arcos_os.Mm.{align_memory, mm_alloc}

-- Blocks of the sizes `sizes`, one after the other.
abbrev pub allocate_all : List ℕ → Cmd Kernel (List Ptr)
allocate_all [] = pure []
allocate_all (n ∷ ns) = do p ← mm_alloc n; ps ← allocate_all ns; pure (p ∷ ps)

-- The memory that these blocks need, each rounded up to words.
abbrev pub total : List ℕ → ℕ
total [] = 0
total (n ∷ ns) = n + 3 + total ns

-- The blocks start at words and follow each other from the address `from` on, up to `to`.
abbrev pub Follow : Ptr → List ℕ → List Ptr → Ptr → Type 0
Follow from [] [] to = from ≤ to
Follow from [] (p ∷ ps) to = ⊥
Follow from (n ∷ ns) [] to = ⊥
Follow from (n ∷ ns) (p ∷ ps) to = (from ≤ p) × (p % 4 ≡ 0) × Follow (p + n) ns ps to

Follow-from :
    (sizes : List ℕ) (ps : List Ptr) (from from' to : Ptr)
    → from' ≤ from
    → Follow from sizes ps to
    → Follow from' sizes ps to
Follow-from [] [] from from' to le f = omega arith
Follow-from [] (p ∷ ps) from from' to le f = f
Follow-from (n ∷ ns) [] from from' to le f = f
Follow-from (n ∷ ns) (p ∷ ps) from from' to le f = (omega (arith, f.0), f.1, f.2)

align_memory-aligned : (x : ℕ) → x + 3 < ulong_mod → align_memory x % 4 ≡ 0
unfolding align_memory
align_memory-aligned x fits = omega arith

align_memory-above : (x : ℕ) → x + 3 < ulong_mod → x ≤ align_memory x
unfolding align_memory
align_memory-above x fits = omega arith

align_memory-below : (x : ℕ) → x + 3 < ulong_mod → align_memory x ≤ x + 3
unfolding align_memory
align_memory-below x fits = omega arith

-- As long as the free memory pointer does not wrap around, MmAlloc hands out blocks that start at
-- words and lie one behind the other, above the pointer it began with and below the one it ends
-- with, where that pointer is a multiple of four.
pub allocate_all-Follow :
    (sizes : List ℕ) (k : Kernel)
    → k.free_mem_pointer % 4 ≡ 0
    → k.free_mem_pointer + total sizes < ulong_mod
    → Returns
        (λ ps k'. Follow k.free_mem_pointer sizes ps k'.free_mem_pointer)
        (allocate_all sizes k)
unfolding mm_alloc
allocate_all-Follow [] k aligned fits = returns (omega arith)
allocate_all-Follow (n ∷ ns) k aligned fits =
    let p : ℕ = k.free_mem_pointer in
    let same : (p + n) % ulong_mod ≡ p + n = omega arith in
    let up = align_memory-above (p + n) (omega arith) in
    let down = align_memory-below (p + n) (omega arith) in
    let next = align_memory-aligned (p + n) (omega arith) in
    rw same (
      Returns-bind
        (allocate_all-Follow ns (record k { free_mem_pointer = align_memory (p + n) }) next
          (omega (arith, down)))
        λ ps k' f. returns (omega arith, aligned, Follow-from ns ps _ (p + n) _ up f))
