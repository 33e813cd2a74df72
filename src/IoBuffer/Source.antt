-- ===== src/IoBuffer/Source.antt =====
-- src/common/io_buffer.cpp keeps the promises of a byte source, in every memory.
use sofa_bolt_cpp.Base.{arith}
use sofa_bolt_cpp.ByteSource.{ByteSource}
use sofa_bolt_cpp.IoBuffer.{Memory, Buffer, size, to_string}
use sofa_bolt_cpp.IoBuffer.Cut.{cut_bytes, pop_front, copy_to}
use sofa_bolt_cpp.IoBuffer.Cut.Slices.{size-length}
use sofa_bolt_cpp.IoBuffer.Cut.Contents.{
  IsAligned, pop_front-TakesFront, cut_bytes-TakesFront, copy_to_lem,
}

abbrev pub io_source : Memory → ByteSource
io_source m = record {
  Buf = Buffer;
  IsOk = IsAligned;
  view = to_string m;
  size = size;
  cut = cut_bytes m;
  pop_front = pop_front;
  copy_to = copy_to m;
  size_lem = size-length m;
  cut_lem = λ b n h.
      let (t, e) = cut_bytes-TakesFront m b n h in
      (omega (arith, t.counted, size-length m b), e, t.rest, t.aligned);
  pop_front_lem = λ b n h.
      let t = pop_front-TakesFront m b n h in
      (omega (arith, t.counted, size-length m b), t.rest, t.aligned);
  copy_to_lem = λ b n h. let (c, e) = copy_to_lem m b n h in (omega (arith, c, size-length m b), e);
}
