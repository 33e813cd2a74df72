-- ===== src/Socket/Write.antt =====
-- `Socket::write` of src/tcp/socket.cpp, under its lock. The system answers each `writev`; the loop runs
-- on fuel, one unit for a call, and a byte is written in each where no slice is empty.
pub mod Sends
pub mod Tests
use sofa_bolt_cpp.Base.{
  ℕ, zero, suc, ◌+◌, ◌-◌, ◌%◌, ◌^◌, Bool, true, false, Option, none, some, List, [], ◌∷◌, ◌++◌,
  if◌then◌else◌, ltb, leb, ◌==◌,
}
use sofa_bolt_cpp.IoBuffer.{Memory, Buffer, size}
use sofa_bolt_cpp.IoBuffer.Descriptor.{Answer, ready, again, broken, cut_into_file_descriptor}
use sofa_bolt_cpp.Socket.{RpcStatus, write_error}

-- What `write` comes to: a return, a read behind the end of `_ref`, or the end of the fuel.
pub data Result : Type 0 where
  returns : Bool → Result
  undefined out_of_fuel : Result

-- The result, the bytes that went to the system, the buffer and the socket's status.
pub record Written : Type 0 where
  pub result : Result
  pub bytes : List ℕ
  pub buffer : Buffer
  pub status : RpcStatus

-- A round of the loop: the end of it, or `cur_size`, the bytes and the buffer for the next.
pub data Turn : Type 0 where
  ends : Result → RpcStatus → Turn
  continues : (cur_size : ℕ) → List ℕ → Buffer → Turn

-- `cur_size += nw`, where `cur_size` is a `size_t` and `nw` may be -1.
pub after_cut : Answer → ℕ → RpcStatus → Option (Option ℕ × List ℕ × Buffer) → Turn
after_cut answer cur_size st none = ends undefined st
after_cut answer cur_size st (some (some nw, sent, b)) = continues ((cur_size + nw) % 2 ^ 64) sent b
after_cut again cur_size st (some (none, sent, b)) =
    continues ((cur_size + (2 ^ 64 - 1)) % 2 ^ 64) sent b
after_cut broken cur_size st (some (none, sent, b)) = ends (returns false) write_error
after_cut (ready n) cur_size st (some (none, sent, b)) = ends (returns false) write_error

pub turn : Memory → ℕ → Answer → ℕ → RpcStatus → Buffer → Turn
unfolding after_cut
turn m buffer_size answer cur_size st b =
    after_cut answer cur_size st (cut_into_file_descriptor m buffer_size answer b)

pub more_bytes : List ℕ → Written → Written
more_bytes sent w = record w { bytes = sent ++ w.bytes }

-- The loop; `answers i` is what the system answers to the call `i`.
pub write_loop : Memory → (ℕ → Answer) → ℕ → ℕ → ℕ → ℕ → RpcStatus → Buffer → Written
unfolding turn more_bytes
write_loop m answers buffer_size zero i cur_size st b = record {
  result = out_of_fuel;
  bytes = [];
  buffer = b;
  status = st;
}
write_loop m answers buffer_size (suc fuel) i cur_size st b =
    let looped : Written = elim (turn m buffer_size (answers i) cur_size st b) [
      | ends r st' ↦ record { result = r; bytes = []; buffer = b; status = st' }
      | continues cur sent b' ↦
          more_bytes sent (write_loop m answers buffer_size fuel (suc i) cur st b')
    ] in
    if ltb cur_size buffer_size
    then looped
    else record { result = returns true; bytes = []; buffer = b; status = st }

-- `write`; `late` says that `timeout_ms` is negative.
pub write : Memory → (ℕ → Answer) → ℕ → Bool → RpcStatus → Buffer → Written
unfolding write_loop
write m answers fuel late st b =
    let refused : Written = record {
      result = returns false;
      bytes = [];
      buffer = b;
      status = st;
    } in
    if late
    then refused
    else if size b == 0
    then refused
    else write_loop m answers (size b) fuel 0 0 st b
