-- ===== src/IoBuffer/Append.antt =====
-- src/common/io_buffer.cpp: the operations that put bytes into a buffer. They write behind the used
-- part of the block at the head of the thread's chain, which several buffers may refer to.
pub mod Valid
pub mod Chain
pub mod Fill
pub mod Put
pub mod Rounds
pub mod Contents
use sofa_bolt_cpp.Base.{
  ℕ, zero, suc, ◌+◌, ◌-◌, min, Option, none, some, List, [], ◌∷◌, ◌++◌, ◌&&◌, if◌then◌else◌, ltb,
  ◌==◌, add32, length, take, drop,
}
use sofa_bolt_cpp.IoBuffer.{Block, Memory, Slice, Buffer, create_block, free_space, set_block}

-- `while (s_tls_block_chain)` of `shareBlockFromTLSChain`: drop full blocks from the chain's head.
pub chain_loop : ℕ → Memory → Memory
chain_loop zero m = m
chain_loop (suc fuel) m = elim m.chain [
  | none ↦ m
  | some k ↦
      let rest = chain_loop fuel (record m { chain = (m.blocks k).next }) in
      if ltb 0 (free_space (m.blocks k)) then m else rest
]

-- `s_tls_block_chain = createBlock(); return s_tls_block_chain;`
pub new_head : Memory → Option ℕ × Memory
new_head m = let (k, m') = create_block m in (k, record m' { chain = k })

-- `shareBlockFromTLSChain`. No chain of distinct blocks is longer than the number of blocks.
pub share_head : Memory → Option ℕ × Memory
share_head m = elim m.chain [ some k ↦ (some k, m) | none ↦ new_head m ]

pub share_block : Memory → Option ℕ × Memory
share_block m = share_head (chain_loop (m.fresh + 1) m)

-- `memmove(data + o, bytes, n)`
abbrev pub write : (ℕ → ℕ) → ℕ → List ℕ → ℕ → ℕ
write cells o [] = cells
write cells o (x ∷ xs) = λ j. if j == o then x else write cells (suc o) xs j

-- The `do { ... } while (0)` block: lengthen the last slice if it ends where the block's used part
-- does, or put a slice behind it.
abbrev pub extend_last : List Slice → ℕ → ℕ → ℕ → List Slice
extend_last [] k o n = record { block = k; offset = o; count = n } ∷ []
extend_last (s ∷ []) k o n =
    if s.block == k && add32 s.offset s.count == o
    then record s { count = add32 s.count n } ∷ []
    else s ∷ record { block = k; offset = o; count = n } ∷ []
extend_last (s ∷ t ∷ ss) k o n = s ∷ extend_last (t ∷ ss) k o n

abbrev pub put_slice : Buffer → ℕ → ℕ → ℕ → Buffer
put_slice b k o n =
    if ltb b.ref_offset (length b.ref)
    then record b { ref = extend_last b.ref k o n }
    else record b { ref = b.ref ++ (record { block = k; offset = o; count = n } ∷ []) }

-- Bytes into block `k`, from its used part on.
pub fill_block : Memory → ℕ → List ℕ → Memory
fill_block m k bytes =
    let blk = m.blocks k in
    set_block m k
      (record blk { size = add32 blk.size (length bytes); cells = write blk.cells blk.size bytes })

-- `append(char)`
pub append_char : Memory → Buffer → ℕ → Memory × Buffer
append_char m b c =
    let (k, m') = share_block m in
    elim k [
      | none ↦ (m', b)
      | some k ↦ (fill_block m' k (c ∷ []), put_slice b k (m'.blocks k).size 1)
    ]

-- `while (cur_size < count)` of `append(const void*, size_t)`; the list is what is left of the data.
pub append_loop : ℕ → Memory → Buffer → List ℕ → Memory × Buffer
append_loop zero m b bytes = (m, b)
append_loop (suc fuel) m b [] = (m, b)
append_loop (suc fuel) m b (x ∷ xs) =
    let (k, m') = share_block m in
    elim k [
      | none ↦ (m', b)
      | some k ↦
          let push_size = min (length (x ∷ xs)) (free_space (m'.blocks k)) in
          append_loop fuel (fill_block m' k (take push_size (x ∷ xs)))
            (put_slice b k (m'.blocks k).size push_size) (drop push_size (x ∷ xs))
    ]

-- `append(const void*, size_t)`: each round pushes at least one byte.
pub append : Memory → Buffer → List ℕ → Memory × Buffer
append m b bytes = append_loop (length bytes) m b bytes

-- `append(const IOBuffer&)`: every slice of `other`, those that it has consumed too.
pub append_buffer : Buffer → Buffer → Buffer
append_buffer b other = record b { ref = b.ref ++ other.ref }

-- `append(IOBuffer&&)`, with the buffer that `other` is left as.
pub append_moved : Buffer → Buffer → Buffer × Buffer
append_moved b other = (record b { ref = b.ref ++ other.ref }, record { ref = []; ref_offset = 0 })

-- `operator=(const IOBuffer&)` and `operator=(IOBuffer&&)` between two buffers. The second does not
-- copy `_ref_offset`.
pub assign : Buffer → Buffer → Buffer
assign b right = record { ref = right.ref; ref_offset = right.ref_offset }

unfoldable pub assign_moved : Buffer → Buffer → Buffer × Buffer
assign_moved b right = (record b { ref = right.ref }, record { ref = []; ref_offset = 0 })
