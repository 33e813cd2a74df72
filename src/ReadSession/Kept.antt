-- ===== src/ReadSession/Kept.antt =====
-- `SocketReadSession` of src/tcp/socket.h: a call is told once how it ended, and its record is deleted
-- when no other thread uses it.
use sofa_bolt_cpp.Base.{◌≤◌, ◌≡◌, refl, Bool, true, false, inl, inr, Bool-cases, ◌⊎◌, arith, ap}
use sofa_bolt_cpp.LifeCycleLock.{try_shared, try_exclusive}
use sofa_bolt_cpp.ReadSession.{
  Agent, resting, backing, sharing, winning, leaving, returned, ended, Worker, scheduling, writing,
  waiting, posting, done, failed, ReadSession, created, Step, adds_timer, timer_busy, writes,
  write_fails, has_no_result, gets_result, worker_releases, timer_notifies, timer_calls_back,
  timer_sets_result, timer_releases, reader_notifies, reader_calls_back, reader_sets_result,
  reader_goes_on, reclaims, Reachable, start, next,
}
use sofa_bolt_cpp.ReadSession.Shares.{
  num, share, holds_win, tried, timer_share, worker_share, has_failed,
}
use sofa_bolt_cpp.ReadSession.Live.{
  Live, adds_timer-Live, writes-Live, has_no_result-Live, gets_result-Live, worker_releases-Live,
}
use sofa_bolt_cpp.ReadSession.Timer.{
  timer_notifies-Live, timer_calls_back-Live, timer_sets_result-Live, timer_releases-Live,
}
use sofa_bolt_cpp.ReadSession.Reader.{
  reader_notifies-Live, reader_calls_back-Live, reader_sets_result-Live, reader_goes_on-Live,
  reclaims-Live,
}

Step-Live : {s s' : ReadSession} → Step s s' → has_failed s'.worker ≡ 0 → Live s → Live s'
Step-Live (adds_timer s e) ok h = adds_timer-Live s e h
Step-Live (timer_busy s e) ok h = absurd (omega (arith, ok))
Step-Live (writes s e) ok h = writes-Live s e h
Step-Live (write_fails s e) ok h = absurd (omega (arith, ok))
Step-Live (has_no_result s e c) ok h = has_no_result-Live s e c h
Step-Live (gets_result s e c r) ok h = gets_result-Live s e c r h
Step-Live (worker_releases s e) ok h = worker_releases-Live s e h
Step-Live (timer_notifies s v a w g m) ok h = timer_notifies-Live s v a w g m h
Step-Live (timer_calls_back s e c) ok h = timer_calls_back-Live s e c h
Step-Live (timer_sets_result s e c) ok h = timer_sets_result-Live s e c h
Step-Live (timer_releases s e) ok h = timer_releases-Live s e h
Step-Live (reader_notifies s v a w d m) ok h = reader_notifies-Live s v a w d m h
Step-Live (reader_calls_back s e c) ok h = reader_calls_back-Live s e c h
Step-Live (reader_sets_result s e c) ok h = reader_sets_result-Live s e c h
Step-Live (reader_goes_on s e) ok h = reader_goes_on-Live s e h
Step-Live (reclaims s e d x) ok h = reclaims-Live s e d x h

-- A sender that failed does not come back.
Step-failed : {s s' : ReadSession} → Step s s' → has_failed s'.worker ≡ 0 → has_failed s.worker ≡ 0
Step-failed (adds_timer s e) ok = ap has_failed e
Step-failed (timer_busy s e) ok = ap has_failed e
Step-failed (writes s e) ok = ap has_failed e
Step-failed (write_fails s e) ok = ap has_failed e
Step-failed (has_no_result s e c) ok = ap has_failed e
Step-failed (gets_result s e c r) ok = ap has_failed e
Step-failed (worker_releases s e) ok = ap has_failed e
Step-failed (timer_notifies s v a w g m) ok = ok
Step-failed (timer_calls_back s e c) ok = ok
Step-failed (timer_sets_result s e c) ok = ok
Step-failed (timer_releases s e) ok = ok
Step-failed (reader_notifies s v a w d m) ok = ok
Step-failed (reader_calls_back s e c) ok = ok
Step-failed (reader_sets_result s e c) ok = ok
Step-failed (reader_goes_on s e) ok = ok
Step-failed (reclaims s e d x) ok = ok

Reachable-Live : {s : ReadSession} → Reachable s → has_failed s.worker ≡ 0 → Live s
unfolding created try_shared
Reachable-Live (start c) ok = record {
  bits = record { counted = refl; one_win = omega arith; apart = omega arith; after = omega arith };
  timer_tried = omega arith;
  reader_tried = omega arith;
  told = λ f. refl;
  quiet = λ f. refl;
  posted = omega arith;
  waited = λ f. omega arith;
}
Reachable-Live (next s s' r st) ok = Step-Live st ok (Reachable-Live r (Step-failed st ok))

timer_share-ended : (a : Agent) → timer_share a ≡ 0 → a ≡ ended
timer_share-ended resting e = absurd (omega (arith, e))
timer_share-ended backing e = absurd (omega (arith, e))
timer_share-ended sharing e = absurd (omega (arith, e))
timer_share-ended winning e = absurd (omega (arith, e))
timer_share-ended leaving e = absurd (omega (arith, e))
timer_share-ended returned e = absurd (omega (arith, e))
timer_share-ended ended e = refl

worker_share-done : (w : Worker) → worker_share true w ≡ 0 → w ≡ done
worker_share-done scheduling e = absurd (omega (arith, e))
worker_share-done writing e = absurd (omega (arith, e))
worker_share-done waiting e = absurd (omega (arith, e))
worker_share-done posting e = absurd (omega (arith, e))
worker_share-done done e = refl
worker_share-done failed e = absurd (omega (arith, e))

num-true : (b : Bool) → num b ≡ 1 → b ≡ true
num-true true e = refl
num-true false e = absurd (omega (arith, e))

-- Unless the sender failed, a session that was deleted in a reachable state was told once how the
-- call ended, the timer's thread is done with it, and so is the sender, if there is no callback.
pub Reachable-deleted :
    (s : ReadSession)
    → Reachable s
    → has_failed s.worker ≡ 0
    → s.deleted ≡ true
    → (s.wins ≡ 1) × (s.timer ≡ ended) × (s.has_callback ≡ true ⊎ s.worker ≡ done)
Reachable-deleted s r ok d =
    let h = Reachable-Live r ok in
    let gone : num s.deleted ≡ 1 = ap num d in
    let win : s.wins ≡ 1 = omega (arith, h.bits.one_win, h.bits.after, gone) in
    let no_timer : share s.timer ≡ 0 = omega (arith, h.bits.apart, gone) in
    let no_reader : share s.reader ≡ 0 = omega (arith, h.bits.apart, gone) in
    (
      win,
      timer_share-ended s.timer (omega (arith, h.bits.apart, gone)),
      elim (Bool-cases s.has_callback) [
        | inl c ↦ inl c
        | inr c ↦
            let set : num s.has_result ≡ 1 = omega (
              arith,
              h.told c,
              win,
              held-share s.timer,
              held-share s.reader,
              no_timer,
              no_reader,
            ) in
            let none_left : worker_share s.has_result s.worker ≡ 0 =
              omega (arith, h.bits.apart, gone) in
            inr (worker_share-done s.worker (rw (← num-true s.has_result set) none_left))
      ],
    )
  where
    held-share : (a : Agent) → holds_win a ≤ share a
    held-share resting = omega arith
    held-share backing = omega arith
    held-share sharing = omega arith
    held-share winning = omega arith
    held-share leaving = omega arith
    held-share returned = omega arith
    held-share ended = omega arith

-- Once the timer's thread has ended, the reading thread is in no call of `notify` and the sender is
-- done without having failed, a session of a reachable state that is not yet deleted has been told
-- once how the call ended, and the next `tryExclusive` succeeds.
pub Reachable-reclaimed :
    (s : ReadSession)
    → Reachable s
    → s.timer ≡ ended
    → s.reader ≡ resting
    → s.worker ≡ done
    → s.deleted ≡ false
    → (s.wins ≡ 1) × (try_exclusive s.owners ≡ (true, 1))
unfolding try_exclusive
Reachable-reclaimed s r t a w d =
    let h = Reachable-Live r (ap has_failed w) in
    let told : tried s.timer ≡ 1 = ap tried t in
    let win : s.wins ≡ 1 = omega (arith, h.bits.one_win, h.timer_tried, told) in
    let kept : num s.deleted ≡ 0 = ap num d in
    let none_timer : share s.timer ≡ 0 = ap share t in
    let none_own : timer_share s.timer ≡ 0 = ap timer_share t in
    let none_reader : share s.reader ≡ 0 = ap share a in
    let none_worker : worker_share s.has_result s.worker ≡ 0 = rw w refl in
    let two : s.owners ≡ 2 =
      omega (arith, h.bits.counted, kept, win, none_timer, none_own, none_reader, none_worker) in
    (win, rw two refl)
