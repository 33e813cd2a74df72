-- ===== src/Socket/Write/Tests.antt =====
-- `Socket::write` of src/tcp/socket.cpp with five bytes in one slice.
use sofa_bolt_cpp.Base.{ℕ, ◌≡◌, ◌⊎◌, refl, true, false, none, [], ◌∷◌, arith}
use sofa_bolt_cpp.IoBuffer.{Memory, Buffer, size, to_string}
use sofa_bolt_cpp.IoBuffer.Descriptor.{Answer, ready, again}
use sofa_bolt_cpp.Socket.{status_ok}
use sofa_bolt_cpp.Socket.Write.{returns, write}
use sofa_bolt_cpp.Socket.Write.Sends.{Sends, IsAgain, write-Sends, write-again}

abbrev zeros : Memory
zeros = record {
  blocks = λ _. record { next = none; size = 25; capacity = 8168; cells = λ i. 0 };
  fresh = 1;
  room = 1000;
  chain = none;
}

abbrev five : Buffer
five = record { ref = record { block = 0; offset = 0; count = 5 } ∷ []; ref_offset = 0 }

-- The system takes two bytes at a time.
abbrev by_twos : ℕ → Answer
by_twos i = ready 2

abbrev not_ready : ℕ → Answer
not_ready i = again

write-Sends_example :
    (((false ≡ true) ⊎ (size five ≡ 0))
      × (write zeros by_twos 6 false status_ok five
          ≡ record { result = returns false; bytes = []; buffer = five; status = status_ok }))
    ⊎ (Sends status_ok (to_string zeros five) (write zeros by_twos 6 false status_ok five)
        ⊎ IsAgain by_twos 0 5)
write-Sends_example =
    write-Sends zeros by_twos 6 false status_ok five (λ j. omega arith) (omega arith)
      (omega arith, tt) (omega arith) (omega arith)

write-again_example :
    write zeros not_ready 2 false status_ok five
    ≡ record { result = returns true; bytes = []; buffer = five; status = status_ok }
write-again_example =
    write-again zeros not_ready 0 status_ok five refl (omega arith) (omega arith, tt) (omega arith)
      (omega arith)
