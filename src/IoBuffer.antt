-- ===== src/IoBuffer.antt =====
-- src/common/io_buffer.h and src/common/io_buffer.cpp: the I/O buffer, a sequence of slices that
-- refer to ranges of shared blocks. A shared pointer to a block is the block's number in the
-- memory; two pointers are equal when the numbers are. Blocks are never reclaimed here: dropping
-- the last reference frees memory and changes no byte that a buffer can still read.
pub mod Cut
pub mod Append
pub mod Descriptor
pub mod Source
pub mod Tests
use sofa_bolt_cpp.Base.{
  ℕ, zero, suc, ◌+◌, ◌-◌, ◌≤◌, ◌<◌, ◌^◌, min, Bool, ◌&&◌, Option, none, some, List, [], ◌∷◌, ◌++◌,
  if◌then◌else◌, ltb, leb, ◌==◌, add32, length, take, drop,
}

-- `struct Block`. `cells i` is `data[i]`.
pub record Block : Type 0 where
  pub next : Option ℕ
  pub size : ℕ
  pub capacity : ℕ
  pub cells : ℕ → ℕ

-- All blocks of a thread: the blocks that exist are those below `fresh`; `room` is how many more
-- blocks `malloc` will grant; `chain` is `s_tls_block_chain`.
pub record Memory : Type 0 where
  pub blocks : ℕ → Block
  pub fresh : ℕ
  pub room : ℕ
  pub chain : Option ℕ

-- `IOBuffer::Slice`
pub record Slice : Type 0 where
  pub block : ℕ
  pub offset : ℕ
  pub count : ℕ

-- `IOBuffer`: the vector `_ref`, and the number of its slices that are consumed.
pub record Buffer : Type 0 where
  pub ref : List Slice
  pub ref_offset : ℕ

-- BUFFER_DEFAULT_BLOCK_SIZE, and the offset of `data` in a block on a 64-bit machine: a shared
-- pointer and two 32-bit numbers.
abbrev pub default_block_size : ℕ
default_block_size = 8192

abbrev pub data_offset : ℕ
data_offset = 24

abbrev pub default_slice_ref_size : ℕ
default_slice_ref_size = 4

-- `Block(hint_size)`
abbrev pub new_block : ℕ → Block
new_block hint = record { next = none; size = 0; capacity = hint - data_offset; cells = λ _. 0 }

abbrev pub free_space : Block → ℕ
free_space b = b.capacity - b.size

abbrev pub set_block : Memory → ℕ → Block → Memory
set_block m k b = record m { blocks = λ j. if j == k then b else m.blocks j }

-- `createBlock()`
pub create_block : Memory → Option ℕ × Memory
create_block m = if m.room == 0 then (none, m) else (
  some m.fresh,
  record m {
    blocks = λ j. if j == m.fresh then new_block default_block_size else m.blocks j;
    fresh = m.fresh + 1;
    room = m.room - 1;
  },
)

-- The bytes `data[o .. o + n)` of a block.
abbrev pub read : (ℕ → ℕ) → ℕ → ℕ → List ℕ
read cells o zero = []
read cells o (suc n) = cells o ∷ read cells (suc o) n

abbrev pub slice_bytes : Memory → Slice → List ℕ
slice_bytes m s = read (m.blocks s.block).cells s.offset s.count

abbrev pub slices_bytes : Memory → List Slice → List ℕ
slices_bytes m [] = []
slices_bytes m (s ∷ ss) = slice_bytes m s ++ slices_bytes m ss

-- `slices_length` is the loop of `IOBuffer::length`.
abbrev pub slices_length : List Slice → ℕ
slices_length [] = 0
slices_length (s ∷ ss) = s.count + slices_length ss

-- The slices that are not consumed, from `_ref_offset` on: every loop of the class starts there.
abbrev pub live : Buffer → List Slice
live b = drop b.ref_offset b.ref

-- `IOBuffer::length`, which is also `size`; `slice_num`; `empty`; `clear`; `to_string`
abbrev pub size : Buffer → ℕ
size b = slices_length (live b)

abbrev pub slice_num : Buffer → ℕ
slice_num b = length b.ref - b.ref_offset

abbrev pub empty : Buffer → Bool
empty b = size b == 0

abbrev pub clear : Buffer → Buffer
clear b = record { ref = []; ref_offset = 0 }

abbrev pub new_buffer : Buffer
new_buffer = record { ref = []; ref_offset = 0 }

abbrev pub to_string : Memory → Buffer → List ℕ
to_string m b = slices_bytes m (live b)

-- `tryReleaseBlock`: once more than four slices are consumed, the others move to the front.
pub try_release : Buffer → Buffer
try_release b =
    if ltb default_slice_ref_size b.ref_offset
    then (if slice_num b == 0
        then record { ref = []; ref_offset = 0 }
        else record { ref = live b; ref_offset = 0 })
    else b
