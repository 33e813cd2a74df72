-- ===== src/ReadSession/Reader.antt =====
-- `SocketReadSession` of src/tcp/socket.h: the accesses of the thread that reads the socket.
use sofa_bolt_cpp.Base.{ℕ, ◌+◌, ◌≤◌, ◌≡◌, true, false, arith, ap, sym, ◌∙◌}
use sofa_bolt_cpp.LifeCycleLock.{try_exclusive}
use mathlib.Core.Bool.{true≢false}
use sofa_bolt_cpp.ReadSession.{Notify, Agent, resting, winning, leaving, returned, ReadSession}
use sofa_bolt_cpp.ReadSession.Shares.{
  num, share, holds_win, tried, timer_share, worker_share, worker_share-open, worker_share-le,
  num-le, is_done, Bits, Notify-Bits, share-le, timer_share-le,
}
use sofa_bolt_cpp.ReadSession.Live.{Live}

pub reader_notifies-Live :
    (s : ReadSession) (v : ℕ) (a : Agent) (w : ℕ)
    → s.deleted ≡ false
    → Notify s.owners s.reader v a w
    → Live s
    → Live (record s { owners = v; reader = a; wins = s.wins + w })
reader_notifies-Live s v a w d m h =
    let kept : num s.deleted ≡ 0 = ap num d in
    let open_before = timer_share-le s.timer in
    let open_after = open_before in
    let c = share s.timer + timer_share s.timer + worker_share s.has_result s.worker in
    let few : c ≤ 3 = omega (
      arith,
      share-le s.timer,
      timer_share-le s.timer,
      worker_share-le s.has_result s.worker,
      num-le s.has_result,
    ) in
    let before : Bits s.owners (share s.reader + c) s.wins 0 = record {
      counted = omega (arith, h.bits.counted, kept, open_before);
      one_win = h.bits.one_win;
      apart = omega (arith, h.bits.apart, kept, open_before);
      after = omega arith;
    } in
    let (bits, tried_now, held) = Notify-Bits c s.wins few m before h.reader_tried in
    record {
      bits = record {
        counted = omega (arith, bits.counted, kept, open_after);
        one_win = bits.one_win;
        apart = omega (arith, bits.apart, kept, open_after);
        after = omega (arith, kept);
      };
      reader_tried = tried_now;
      timer_tried = omega (arith, h.timer_tried);
      told = λ f. omega (arith, h.told f, held);
      quiet = h.quiet;
      posted = h.posted;
      waited = h.waited;
    }

pub reader_calls_back-Live :
    (s : ReadSession)
    → s.reader ≡ winning
    → s.has_callback ≡ true
    → Live s
    → Live (record s { reader = leaving })
reader_calls_back-Live s e c h =
    let had : share s.reader ≡ 1 = ap share e in
    let told : tried s.reader ≡ 1 = ap tried e in
    record {
      bits = record {
        counted = omega (arith, h.bits.counted, had);
        one_win = h.bits.one_win;
        apart = omega (arith, h.bits.apart, had);
        after = h.bits.after;
      };
      reader_tried = omega (arith, h.reader_tried, told);
      timer_tried = h.timer_tried;
      told = λ f. absurd (true≢false (sym c ∙ f));
      quiet = h.quiet;
      posted = h.posted;
      waited = h.waited;
    }

pub reader_sets_result-Live :
    (s : ReadSession)
    → s.reader ≡ winning
    → s.has_callback ≡ false
    → Live s
    → Live (record s { reader = returned; has_result = true })
reader_sets_result-Live s e c h =
    let had : share s.reader ≡ 1 = ap share e in
    let told : tried s.reader ≡ 1 = ap tried e in
    let held : holds_win s.reader ≡ 1 = ap holds_win e in
    let none_set : num s.has_result ≡ 0 = omega (arith, h.told c, held, h.bits.one_win) in
    let waits : is_done s.worker ≡ 0 = omega (arith, h.waited c, none_set) in
    let was = worker_share-open s.has_result s.worker waits in
    let is = worker_share-open true s.worker waits in
    record {
      bits = record {
        counted = omega (arith, h.bits.counted, had, none_set, was, is);
        one_win = h.bits.one_win;
        apart = omega (arith, h.bits.apart, had, none_set, was, is);
        after = h.bits.after;
      };
      reader_tried = omega (arith, h.reader_tried, told);
      timer_tried = h.timer_tried;
      told = λ f. omega (arith, h.told f, held, none_set);
      quiet = λ f. absurd (true≢false (sym f ∙ c));
      posted = omega (arith, h.posted, none_set);
      waited = λ f. omega (arith, waits);
    }

pub reader_goes_on-Live :
    (s : ReadSession) → s.reader ≡ returned → Live s → Live (record s { reader = resting })
reader_goes_on-Live s e h =
    let had : share s.reader ≡ 0 = ap share e in
    let held : holds_win s.reader ≡ 0 = ap holds_win e in
    record {
      bits = record {
        counted = omega (arith, h.bits.counted, had);
        one_win = h.bits.one_win;
        apart = omega (arith, h.bits.apart, had);
        after = h.bits.after;
      };
      timer_tried = h.timer_tried;
      reader_tried = omega arith;
      told = λ f. omega (arith, h.told f, held);
      quiet = h.quiet;
      posted = h.posted;
      waited = h.waited;
    }

pub reclaims-Live :
    (s : ReadSession)
    → s.reader ≡ resting
    → s.deleted ≡ false
    → (try_exclusive s.owners).0 ≡ true
    → Live s
    → Live (record s { owners = (try_exclusive s.owners).1; deleted = true })
unfolding try_exclusive
reclaims-Live s e d x h =
    let kept : num s.deleted ≡ 0 = ap num d in
    let two : s.owners ≡ 2 = ground arith in
    record {
      bits = record {
        counted = rw two (omega (arith, h.bits.counted, h.bits.one_win, kept, two));
        one_win = h.bits.one_win;
        apart = omega (arith, h.bits.counted, h.bits.one_win, kept, two);
        after = omega (arith, h.bits.counted, h.bits.one_win, kept, two);
      };
      timer_tried = h.timer_tried;
      reader_tried = h.reader_tried;
      told = h.told;
      quiet = h.quiet;
      posted = h.posted;
      waited = h.waited;
    }
