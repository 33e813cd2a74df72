-- ===== src/ByteSource.antt =====
-- The reading side of a byte buffer, as the protocol code uses it: `IOBuffer::size`, `cut`,
-- `pop_front` and `copy_to`, with what each promises of the bytes that the buffer shows.
use sofa_bolt_cpp.Base.{ℕ, ◌≡◌, List, length, take, drop, min}

pub record ByteSource : Type 1 where
  pub Buf : Type 0
  pub IsOk : Buf → Type 0
  pub view : Buf → List ℕ
  pub size : Buf → ℕ
  pub cut : Buf → ℕ → ℕ × List ℕ × Buf
  pub pop_front : Buf → ℕ → ℕ × Buf
  pub copy_to : Buf → ℕ → ℕ × List ℕ
  pub size_lem : (b : Buf) → size b ≡ length (view b)
  pub cut_lem :
      (b : Buf) (n : ℕ)
      → IsOk b
      → let (cur, out, b') = cut b n in
        (cur ≡ min n (length (view b)))
        × (out ≡ take n (view b))
        × (view b' ≡ drop n (view b))
        × IsOk b'
  pub pop_front_lem :
      (b : Buf) (n : ℕ)
      → IsOk b
      → let (cur, b') = pop_front b n in
        (cur ≡ min n (length (view b))) × (view b' ≡ drop n (view b)) × IsOk b'
  pub copy_to_lem :
      (b : Buf) (n : ℕ)
      → IsOk b
      → let (cur, out) = copy_to b n in (cur ≡ min n (length (view b))) × (out ≡ take n (view b))
