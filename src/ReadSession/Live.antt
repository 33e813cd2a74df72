-- ===== src/ReadSession/Live.antt =====
-- `SocketReadSession` of src/tcp/socket.h: the shares that all threads hold, step by step.
use sofa_bolt_cpp.Base.{ℕ, ◌+◌, ◌≤◌, ◌≡◌, refl, true, false, arith, subst, ap, sym, ◌∙◌}
use sofa_bolt_cpp.LifeCycleLock.{release_shared}
use mathlib.Core.Bool.{true≢false}
use sofa_bolt_cpp.ReadSession.{done, Worker, scheduling, writing, waiting, posting, ReadSession}
use sofa_bolt_cpp.ReadSession.Shares.{
  num, share, holds_win, tried, timer_share, worker_share, num-le, is_done, is_posting, Bits,
}

-- The shares that there are.
abbrev pub shared : ReadSession → ℕ
shared s = share s.timer + share s.reader + timer_share s.timer + worker_share s.has_result s.worker

-- What holds while the sender has not failed. Where there is no callback, a win is in the hand of the
-- call that has it until it sets the result.
pub record Live (s : ReadSession) : Type 0 where
  pub bits : Bits s.owners (shared s) s.wins (num s.deleted)
  pub timer_tried : tried s.timer ≤ s.wins
  pub reader_tried : tried s.reader ≤ s.wins
  pub told :
      s.has_callback ≡ false → holds_win s.timer + holds_win s.reader + num s.has_result ≡ s.wins
  pub posted : is_posting s.worker ≤ num s.has_result
  pub quiet : s.has_callback ≡ true → s.has_result ≡ false
  pub waited : s.has_callback ≡ false → is_done s.worker ≤ num s.has_result

-- The share that the sender has at the phase `w`.
at_worker :
    (s : ReadSession) (w : Worker)
    → s.worker ≡ w
    → worker_share s.has_result s.worker ≡ worker_share s.has_result w
at_worker s w e = rw e refl

pub adds_timer-Live :
    (s : ReadSession)
    → s.worker ≡ scheduling
    → Live s
    → Live (record s { timer_added = true; worker = writing })
adds_timer-Live s e h = record {
  bits = rw (← at_worker s scheduling e) h.bits;
  timer_tried = h.timer_tried;
  reader_tried = h.reader_tried;
  told = h.told;
  quiet = h.quiet;
  posted = omega arith;
  waited = λ f. omega arith;
}

pub writes-Live :
    (s : ReadSession) → s.worker ≡ writing → Live s → Live (record s { worker = waiting })
writes-Live s e h = record {
  bits = rw (← at_worker s writing e) h.bits;
  timer_tried = h.timer_tried;
  reader_tried = h.reader_tried;
  told = h.told;
  quiet = h.quiet;
  posted = omega arith;
  waited = λ f. omega arith;
}

pub has_no_result-Live :
    (s : ReadSession)
    → s.worker ≡ waiting
    → s.has_callback ≡ true
    → Live s
    → Live (record s { worker = done })
has_no_result-Live s e c h =
    let was = at_worker s waiting e in
    let none_set : num s.has_result ≡ 0 = ap num (h.quiet c) in
    record {
      bits = record {
        counted = omega (arith, h.bits.counted, was, none_set);
        one_win = h.bits.one_win;
        apart = omega (arith, h.bits.apart, was, none_set);
        after = h.bits.after;
      };
      timer_tried = h.timer_tried;
      reader_tried = h.reader_tried;
      told = h.told;
      quiet = h.quiet;
      posted = omega arith;
      waited = λ f. absurd (true≢false (sym c ∙ f));
    }

pub gets_result-Live :
    (s : ReadSession)
    → s.worker ≡ waiting
    → s.has_callback ≡ false
    → s.has_result ≡ true
    → Live s
    → Live (record s { worker = posting })
gets_result-Live s e c r h = record {
  bits = rw (← at_worker s waiting e) h.bits;
  timer_tried = h.timer_tried;
  reader_tried = h.reader_tried;
  told = h.told;
  quiet = h.quiet;
  posted = rw r (omega arith);
  waited = λ f. omega arith;
}

pub worker_releases-Live :
    (s : ReadSession)
    → s.worker ≡ posting
    → Live s
    → Live (record s { owners = release_shared s.owners; worker = done })
unfolding release_shared
worker_releases-Live s e h =
    let p : 1 ≤ num s.has_result = subst (λ w. is_posting w ≤ num s.has_result) e h.posted in
    let was : worker_share s.has_result s.worker ≡ num s.has_result = at_worker s posting e in
    record {
      bits = record {
        counted =
            omega
              (arith, h.bits.counted, h.bits.one_win, h.bits.apart, p, was, num-le s.has_result);
        one_win = h.bits.one_win;
        apart = omega (arith, h.bits.apart);
        after = h.bits.after;
      };
      timer_tried = h.timer_tried;
      reader_tried = h.reader_tried;
      told = h.told;
      quiet = h.quiet;
      posted = omega arith;
      waited = λ f. omega (arith, p);
    }
