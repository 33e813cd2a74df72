-- ===== src/IoBuffer/Tests.antt =====
-- The operations of src/common/io_buffer.cpp on a small memory.
use sofa_bolt_cpp.Base.{◌+◌, ◌≡◌, refl, inr, some, none, [], ◌∷◌, arith}
use sofa_bolt_cpp.IoBuffer.{Memory, Buffer, to_string}
use sofa_bolt_cpp.IoBuffer.Cut.{cut_bytes}
use sofa_bolt_cpp.IoBuffer.Cut.Contents.{TakesFront, cut_bytes-TakesFront}
use sofa_bolt_cpp.IoBuffer.Append.{append, assign_moved}
use sofa_bolt_cpp.IoBuffer.Append.Valid.{IsValid}
use sofa_bolt_cpp.IoBuffer.Append.Put.{Holds}
use sofa_bolt_cpp.IoBuffer.Append.Contents.{append_lem}

-- One block with five used bytes, 100 to 104, at the head of the chain.
abbrev pub small : Memory
small = record {
  blocks = λ _. record { next = none; size = 5; capacity = 8168; cells = λ i. i + 100 };
  fresh = 1;
  room = 1000;
  chain = some 0;
}

pub small-IsValid : IsValid small
small-IsValid = record {
  used = λ k h. omega arith;
  small = λ k h. omega arith;
  chained = inr (0, refl, omega arith, refl);
}

-- Bytes 101 and 102, and 102 to 104 in a second slice.
abbrev pub two_slices : Buffer
two_slices = record {
  ref =
      record { block = 0; offset = 1; count = 2 }
      ∷ record { block = 0; offset = 2; count = 3 }
      ∷ [];
  ref_offset = 0;
}

-- The same with the first slice consumed.
abbrev consumed : Buffer
consumed = record { ref = two_slices.ref; ref_offset = 1 }

pub two_slices-Holds : Holds small two_slices
two_slices-Holds = record {
  aligned = omega arith;
  in_use = ((omega arith, omega arith), ((omega arith, omega arith), tt));
}

consumed-Holds : Holds small consumed
consumed-Holds = record {
  aligned = omega arith;
  in_use = ((omega arith, omega arith), ((omega arith, omega arith), tt));
}

to_string-two_slices : to_string small two_slices ≡ 101 ∷ 102 ∷ 102 ∷ 103 ∷ 104 ∷ []
to_string-two_slices = refl

cut_bytes-TakesFront_example :
    TakesFront small two_slices 3 (cut_bytes small two_slices 3).0 (cut_bytes small two_slices 3).2
    × ((cut_bytes small two_slices 3).1 ≡ 101 ∷ 102 ∷ 102 ∷ [])
cut_bytes-TakesFront_example = cut_bytes-TakesFront small two_slices 3 (omega arith)

append_lem_example :
    let (m, b) = append small two_slices (1 ∷ 2 ∷ 3 ∷ []) in
    (to_string m b ≡ 101 ∷ 102 ∷ 102 ∷ 103 ∷ 104 ∷ 1 ∷ 2 ∷ 3 ∷ [])
    × (to_string m consumed ≡ 102 ∷ 103 ∷ 104 ∷ [])
    × IsValid m
    × Holds m b
    × Holds m consumed
append_lem_example =
    append_lem small two_slices consumed (1 ∷ 2 ∷ 3 ∷ []) small-IsValid two_slices-Holds
      consumed-Holds (omega arith)

-- `operator=(IOBuffer&&)` keeps the receiver's `_ref_offset`, so the first byte that was moved is lost.
moved_bytes :
    let (b, right) = assign_moved consumed two_slices in
    (to_string small b ≡ 102 ∷ 103 ∷ 104 ∷ []) × (to_string small right ≡ [])
unfolding assign_moved
moved_bytes = (refl, refl)
