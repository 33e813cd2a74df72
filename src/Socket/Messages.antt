-- ===== src/Socket/Messages.antt =====
-- src/tcp/socket.cpp: a message that has come in full goes to the call with its number.
use sofa_bolt_cpp.Base.{
  if◌then◌else◌, ◌+◌, ◌%◌, ◌^◌, ◌<◌, ℕ, suc, ◌≡◌, false, Option, none, some, List, [], ◌∷◌, ◌++◌,
  ◌==◌, take, drop,
}
use sofa_bolt_cpp.IoBuffer.{Memory, to_string}
use sofa_bolt_cpp.IoBuffer.Cut.Contents.{IsAligned}
use sofa_bolt_cpp.Socket.{PendingSession, Socket, find}

-- A call whose buffer is in order and whose lock has room for two more shares.
abbrev pub InOrder : PendingSession → Type 0
InOrder s = IsAligned s.read_buf × (s.owners + 8 < 2 ^ 32)

-- A call of the map stands under its own number and is in order.
pub data IsKeyed : List (ℕ × PendingSession) → Type 0 where
  keyed_nil : IsKeyed []
  keyed_cons :
      (s : PendingSession) (m : List (ℕ × PendingSession))
      → InOrder s
      → IsKeyed m
      → IsKeyed ((s.request_id, s) ∷ m)

pub data IsWaiting : List PendingSession → Type 0 where
  waiting_nil : IsWaiting []
  waiting_cons :
      (s : PendingSession) (q : List PendingSession) → InOrder s → IsWaiting q → IsWaiting (s ∷ q)

-- What the lock and the number of times a call was told become: a call that was not told before is, and
-- its lock is upgraded, with one more share where it has no callback; of another nothing changes.
pub data Notified (s s' : PendingSession) : Type 0 where
  first :
      s.owners % 4 ≡ 0
      → s'.told ≡ suc s.told
      → s'.owners ≡ s.owners + (if s.has_callback then 2 else 6)
      → Notified s s'
  told_before : 0 < s.owners % 4 → s'.told ≡ s.told → s'.owners ≡ s.owners → Notified s s'

-- What becomes of the call that a message of `bytes` is for, where `extra` is what the protocol kept.
pub data Given (m : Memory) (bytes : List ℕ) (extra : Option ℕ)
    : Option PendingSession → Option PendingSession → Type 0 where
  nobody : Given m bytes extra none none
  given :
      (s s' : PendingSession)
      → to_string m s'.read_buf ≡ to_string m s.read_buf ++ bytes
      → s'.message_data ≡ extra
      → Notified s s'
      → Given m bytes extra (some s) (some s')

-- The socket `k'` after a message of `n` bytes for the call `id` of the map `calls` came to `k`.
pub record Delivers (m : Memory) (k : Socket) (calls : List (ℕ × PendingSession)) (n id : ℕ)
    (k' : Socket) : Type 0 where
  pub rest : to_string m k'.read_buf ≡ drop n (to_string m k.read_buf)
  pub aligned : IsAligned k'.read_buf
  pub mine :
      Given m
        (take n (to_string m k.read_buf))
        k.read_additional_data
        (find id calls)
        (find id k'.session_map)
  pub others : (j : ℕ) → (j == id) ≡ false → find j k'.session_map ≡ find j calls
