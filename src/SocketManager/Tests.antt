-- ===== src/SocketManager/Tests.antt =====
-- The socket manager of src/tcp/socket_manager.cpp with three sockets and two threads.
use sofa_bolt_cpp.Base.{ℕ, ◌+◌, ◌≡◌, refl, Bool, true, false, [], ◌∷◌, arith, ◌==◌}
use sofa_bolt_cpp.SocketManager.{Manager, is_due, is_dead, idle_time, Peer}
use sofa_bolt_cpp.SocketManager.Liveness.{IsReleased, rounds, rounds-IsReleased}

-- The socket 1 is used, 2 is not, and 3 waits to be reclaimed.
abbrev watching : Manager
watching = record {
  list = 1 ∷ 2 ∷ [];
  reclaim_list = 3 ∷ [];
  reclaim_counter = 5;
  sock = λ x. record { fd = x + 10; scheduled = x == 1; on_read = true };
}

abbrev unused : ℕ → Bool
unused x = x == 2

rounds-IsReleased_example : IsReleased 3 (rounds (λ i. unused) 2 2 watching)
rounds-IsReleased_example =
    rounds-IsReleased (λ i. unused) 2 2 3 watching (omega arith) (omega arith) refl (omega arith)

-- A socket that was active in the last fifteen seconds gets no heartbeat; one that does not answer is
-- marked.
abbrev idle_peer : Peer
idle_peer = record { active = true; last_active_time = 1000; has_heartbeat = true }

is_due_run : is_due 15001000 idle_peer ≡ false
unfolding is_due idle_time
is_due_run = refl

is_dead_run :
    is_dead 15001001 idle_peer (record { assembled = true; failed = true; parsed = false }) ≡ true
unfolding is_dead is_due idle_time
is_dead_run = refl
