-- ===== src/ReadSession/Timer.antt =====
-- `SocketReadSession` of src/tcp/socket.h: the accesses of the timer's thread.
use sofa_bolt_cpp.Base.{ℕ, ◌+◌, ◌≤◌, ◌≡◌, true, false, arith, ap, sym, ◌∙◌}
use sofa_bolt_cpp.LifeCycleLock.{release_shared}
use mathlib.Core.Bool.{true≢false}
use sofa_bolt_cpp.ReadSession.{Notify, Agent, winning, leaving, returned, ended, ReadSession}
use sofa_bolt_cpp.ReadSession.Shares.{
  num, share, holds_win, tried, timer_share, worker_share, worker_share-open, worker_share-le,
  num-le, is_done, Bits, Notify-Bits, Notify-open, share-le, timer_share-le,
}
use sofa_bolt_cpp.ReadSession.Live.{Live}

pub timer_notifies-Live :
    (s : ReadSession) (v : ℕ) (a : Agent) (w : ℕ)
    → s.timer_added ≡ true
    → Notify s.owners s.timer v a w
    → Live s
    → Live (record s { owners = v; timer = a; wins = s.wins + w })
timer_notifies-Live s v a w g m h =
    let (open_before, open_after) = Notify-open m in
    let kept : num s.deleted ≡ 0 = omega (arith, h.bits.apart, open_before) in
    let c = share s.reader + 1 + worker_share s.has_result s.worker in
    let few : c ≤ 3 = omega (
      arith,
      share-le s.reader,
      timer_share-le s.timer,
      worker_share-le s.has_result s.worker,
      num-le s.has_result,
    ) in
    let before : Bits s.owners (share s.timer + c) s.wins 0 = record {
      counted = omega (arith, h.bits.counted, kept, open_before);
      one_win = h.bits.one_win;
      apart = omega (arith, h.bits.apart, kept, open_before);
      after = omega arith;
    } in
    let (bits, tried_now, held) = Notify-Bits c s.wins few m before h.timer_tried in
    record {
      bits = record {
        counted = omega (arith, bits.counted, kept, open_after);
        one_win = bits.one_win;
        apart = omega (arith, bits.apart, kept, open_after);
        after = omega (arith, kept);
      };
      timer_tried = tried_now;
      reader_tried = omega (arith, h.reader_tried);
      told = λ f. omega (arith, h.told f, held);
      quiet = h.quiet;
      posted = h.posted;
      waited = h.waited;
    }

pub timer_calls_back-Live :
    (s : ReadSession)
    → s.timer ≡ winning
    → s.has_callback ≡ true
    → Live s
    → Live (record s { timer = leaving })
timer_calls_back-Live s e c h =
    let had : share s.timer ≡ 1 = ap share e in
    let had' : timer_share s.timer ≡ 1 = ap timer_share e in
    let told : tried s.timer ≡ 1 = ap tried e in
    record {
      bits = record {
        counted = omega (arith, h.bits.counted, had, had');
        one_win = h.bits.one_win;
        apart = omega (arith, h.bits.apart, had, had');
        after = h.bits.after;
      };
      timer_tried = omega (arith, h.timer_tried, told);
      reader_tried = h.reader_tried;
      told = λ f. absurd (true≢false (sym c ∙ f));
      quiet = h.quiet;
      posted = h.posted;
      waited = h.waited;
    }

pub timer_sets_result-Live :
    (s : ReadSession)
    → s.timer ≡ winning
    → s.has_callback ≡ false
    → Live s
    → Live (record s { timer = returned; has_result = true })
timer_sets_result-Live s e c h =
    let had : share s.timer ≡ 1 = ap share e in
    let had' : timer_share s.timer ≡ 1 = ap timer_share e in
    let told : tried s.timer ≡ 1 = ap tried e in
    let held : holds_win s.timer ≡ 1 = ap holds_win e in
    let none_set : num s.has_result ≡ 0 = omega (arith, h.told c, held, h.bits.one_win) in
    let waits : is_done s.worker ≡ 0 = omega (arith, h.waited c, none_set) in
    let was = worker_share-open s.has_result s.worker waits in
    let is = worker_share-open true s.worker waits in
    record {
      bits = record {
        counted = omega (arith, h.bits.counted, had, had', none_set, was, is);
        one_win = h.bits.one_win;
        apart = omega (arith, h.bits.apart, had, had', none_set, was, is);
        after = h.bits.after;
      };
      timer_tried = omega (arith, h.timer_tried, told);
      reader_tried = h.reader_tried;
      told = λ f. omega (arith, h.told f, held, none_set);
      quiet = λ f. absurd (true≢false (sym f ∙ c));
      posted = omega (arith, h.posted, none_set);
      waited = λ f. omega (arith, waits);
    }

pub timer_releases-Live :
    (s : ReadSession)
    → s.timer ≡ returned
    → Live s
    → Live (record s { owners = release_shared s.owners; timer = ended })
unfolding release_shared
timer_releases-Live s e h =
    let had : share s.timer ≡ 0 = ap share e in
    let had' : timer_share s.timer ≡ 1 = ap timer_share e in
    let told : tried s.timer ≡ 1 = ap tried e in
    let held : holds_win s.timer ≡ 0 = ap holds_win e in
    record {
      bits = record {
        counted = omega (
          arith,
          h.bits.counted,
          h.bits.one_win,
          h.bits.apart,
          had,
          had',
          share-le s.reader,
          num-le s.has_result,
          worker_share-le s.has_result s.worker,
        );
        one_win = h.bits.one_win;
        apart = omega (arith, h.bits.apart, had, had');
        after = h.bits.after;
      };
      timer_tried = omega (arith, h.timer_tried, told);
      reader_tried = h.reader_tried;
      told = λ f. omega (arith, h.told f, held);
      quiet = h.quiet;
      posted = h.posted;
      waited = h.waited;
    }
