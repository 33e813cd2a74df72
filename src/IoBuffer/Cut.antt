-- ===== src/IoBuffer/Cut.antt =====
-- src/common/io_buffer.cpp: the operations that take bytes off a buffer. Each loop runs over the
-- slices from `_ref_offset` on, with `cur_size` bytes done of the `n` asked for; it returns
-- `cur_size` at its end, the slices as it leaves them, and by how many it moves `_ref_offset`.
pub mod Slices
pub mod Loops
pub mod Back
pub mod Contents
pub mod Full
use sofa_bolt_cpp.Base.{ℕ, suc, ◌+◌, ◌-◌, min, List, [], ◌∷◌, ◌++◌, if◌then◌else◌, ltb, take, ◌==◌}
use mathlib.Core.List.{reverse}
use sofa_bolt_cpp.IoBuffer.{Memory, Slice, Buffer, read, slice_bytes, live, size, try_release}

-- `_ref[i].offset += k; _ref[i].length -= k;`, which runs only at `k < length`.
abbrev pub skip_bytes : Slice → ℕ → Slice
skip_bytes s k = record s { offset = s.offset + k; count = s.count - k }

abbrev pub keep_bytes : Slice → ℕ → Slice
keep_bytes s k = record s { count = k }

abbrev pub advance : Buffer → List Slice → ℕ → Buffer
advance b ss k = record { ref = take b.ref_offset b.ref ++ ss; ref_offset = b.ref_offset + k }

-- `IOBuffer::pop_front`
pub pop_front_loop : List Slice → ℕ → ℕ → ℕ × List Slice × ℕ
pop_front_loop [] cur n = (cur, [], 0)
pop_front_loop (s ∷ ss) cur n =
    let (cur', ss', k) = pop_front_loop ss (cur + s.count) n in
    if ltb cur n
    then (if ltb (n - cur) s.count
        then (cur + (n - cur), skip_bytes s (n - cur) ∷ ss, 0)
        else (cur', s ∷ ss', suc k))
    else (cur, s ∷ ss, 0)

pub pop_front : Buffer → ℕ → ℕ × Buffer
pop_front b n =
    let (cur, ss, k) = pop_front_loop (live b) 0 n in (cur, try_release (advance b ss k))

-- `IOBuffer::pop_back`, whose loop runs down from the last slice: its argument is reversed.
pub pop_back_loop : List Slice → ℕ → ℕ → ℕ × List Slice
pop_back_loop [] cur n = (cur, [])
pop_back_loop (s ∷ ss) cur n =
    let (cur', ss') = pop_back_loop ss (cur + s.count) n in
    if ltb cur n
    then (if ltb (n - cur) s.count
        then (cur + (n - cur), keep_bytes s (s.count - (n - cur)) ∷ ss)
        else (cur', ss'))
    else (cur, s ∷ ss)

pub pop_back : Buffer → ℕ → ℕ × Buffer
pop_back b n =
    let (cur, ss) = pop_back_loop (reverse (live b)) 0 n in
    (cur, record b { ref = take b.ref_offset b.ref ++ reverse ss })

-- `cut(IOBuffer*, n)`: the slices that go to `out`, before the slices left.
pub cut_slices_loop : List Slice → ℕ → ℕ → ℕ × List Slice × List Slice × ℕ
cut_slices_loop [] cur n = (cur, [], [], 0)
cut_slices_loop (s ∷ ss) cur n =
    let (cur', out, ss', k) = cut_slices_loop ss (cur + s.count) n in
    if ltb cur n
    then (if ltb (n - cur) s.count
        then (cur + (n - cur), keep_bytes s (n - cur) ∷ [], skip_bytes s (n - cur) ∷ ss, 0)
        else (cur', s ∷ out, s ∷ ss', suc k))
    else (cur, [], s ∷ ss, 0)

pub cut_slices : Buffer → Buffer → ℕ → ℕ × Buffer × Buffer
cut_slices b out n =
    let (cur, moved, ss, k) = cut_slices_loop (live b) 0 n in
    (cur, record out { ref = out.ref ++ moved }, try_release (advance b ss k))

-- `cut(void*, n)`: the bytes that go to `out`.
pub cut_bytes_loop : Memory → List Slice → ℕ → ℕ → ℕ × List ℕ × List Slice × ℕ
cut_bytes_loop m [] cur n = (cur, [], [], 0)
cut_bytes_loop m (s ∷ ss) cur n =
    let (cur', out, ss', k) = cut_bytes_loop m ss (cur + s.count) n in
    if ltb cur n
    then (if ltb (n - cur) s.count
        then (
          cur + (n - cur),
          read (m.blocks s.block).cells s.offset (n - cur),
          skip_bytes s (n - cur) ∷ ss,
          0,
        )
        else (cur', slice_bytes m s ++ out, s ∷ ss', suc k))
    else (cur, [], s ∷ ss, 0)

pub cut_bytes : Memory → Buffer → ℕ → ℕ × List ℕ × Buffer
cut_bytes m b n =
    let (cur, out, ss, k) = cut_bytes_loop m (live b) 0 n in
    (cur, out, try_release (advance b ss k))

-- `cut(std::string&, n)`
pub cut_string : Memory → Buffer → List ℕ → ℕ → ℕ × List ℕ × Buffer
cut_string m b out n =
    let (cur, bytes, b') = cut_bytes m b (min n (size b)) in
    if n == 0 then (0, out, b) else (cur, out ++ bytes, b')

-- `copy_to`: as `cut(void*, n)`, and the buffer stays.
unfoldable pub copy_to_loop : Memory → List Slice → ℕ → ℕ → ℕ × List ℕ
copy_to_loop m [] cur n = (cur, [])
copy_to_loop m (s ∷ ss) cur n =
    let (cur', out) = copy_to_loop m ss (cur + s.count) n in
    if ltb cur n
    then (if ltb (n - cur) s.count
        then (cur + (n - cur), read (m.blocks s.block).cells s.offset (n - cur))
        else (cur', slice_bytes m s ++ out))
    else (cur, [])

unfoldable pub copy_to : Memory → Buffer → ℕ → ℕ × List ℕ
copy_to m b n = copy_to_loop m (live b) 0 n
