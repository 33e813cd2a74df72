-- ===== src/ReadSession/Tests.antt =====
-- `SocketReadSession` of src/tcp/socket.h in the orders of events that its comments describe, and others.
use sofa_bolt_cpp.Base.{◌≡◌, ◌⊎◌, refl, true, false}
use sofa_bolt_cpp.LifeCycleLock.{
  try_shared, release_shared, set_upgraded, try_upgrade_once, try_exclusive,
}
use sofa_bolt_cpp.ReadSession.{
  ReadSession, resting, ended, writing, done, failed, created, shares, refused, backs_off, upgrades,
  leaves, adds_timer, timer_busy, writes, gets_result, worker_releases, timer_notifies,
  timer_calls_back, timer_releases, reader_notifies, reader_sets_result, reader_goes_on, reclaims,
  Reachable, start, next,
}
use sofa_bolt_cpp.ReadSession.Kept.{Reachable-deleted, Reachable-reclaimed}

-- A call that waits: the response comes, the sender takes it, and then the timer's thread runs.
abbrev all_done : ReadSession
all_done = record {
  owners = 2;
  timer = ended;
  timer_added = true;
  reader = resting;
  worker = done;
  has_callback = false;
  wins = 1;
  has_result = true;
  deleted = false;
}

all_done-Reachable : Reachable all_done
unfolding created try_shared release_shared set_upgraded try_upgrade_once
all_done-Reachable =
    let r0 = start false in
    let r1 = next _ _ r0 (adds_timer _ refl) in
    let r2 = next _ _ r1 (writes _ refl) in
    let r3 = next _ _ r2 (reader_notifies _ _ _ _ refl (shares 4 refl)) in
    let r4 = next _ _ r3 (reader_notifies _ _ _ _ refl (upgrades 8 refl)) in
    let r5 = next _ _ r4 (reader_sets_result _ refl refl) in
    let r6 = next _ _ r5 (reader_goes_on _ refl) in
    let r7 = next _ _ r6 (gets_result _ refl refl refl) in
    let r8 = next _ _ r7 (worker_releases _ refl) in
    let r9 = next _ _ r8 (timer_notifies _ _ _ _ refl (refused 6 refl)) in
    let r10 = next _ _ r9 (timer_notifies _ _ _ _ refl (backs_off 10)) in
    let r11 = next _ _ r10 (timer_releases _ refl) in r11

Reachable-reclaimed_example : (all_done.wins ≡ 1) × (try_exclusive all_done.owners ≡ (true, 1))
Reachable-reclaimed_example = Reachable-reclaimed all_done all_done-Reachable refl refl refl refl

abbrev deleted_session : ReadSession
deleted_session = record all_done { owners = 1; deleted = true }

Reachable-deleted_example :
    (deleted_session.wins ≡ 1)
    × (deleted_session.timer ≡ ended)
    × (deleted_session.has_callback ≡ true ⊎ deleted_session.worker ≡ done)
unfolding try_exclusive
Reachable-deleted_example =
    Reachable-deleted deleted_session
      (next _ _ all_done-Reachable (reclaims all_done refl refl refl)) refl refl

-- With a callback the timer's thread may run before the sender is done: the session is then deleted
-- while the sender still has to look at it.
too_early : Reachable (record {
  owners = 1;
  timer = ended;
  timer_added = true;
  reader = resting;
  worker = writing;
  has_callback = true;
  wins = 1;
  has_result = false;
  deleted = true;
})
unfolding created try_shared release_shared set_upgraded try_upgrade_once try_exclusive
too_early =
    let r0 = start true in
    let r1 = next _ _ r0 (adds_timer _ refl) in
    let r2 = next _ _ r1 (timer_notifies _ _ _ _ refl (shares 4 refl)) in
    let r3 = next _ _ r2 (timer_notifies _ _ _ _ refl (upgrades 8 refl)) in
    let r4 = next _ _ r3 (timer_calls_back _ refl refl) in
    let r5 = next _ _ r4 (timer_notifies _ _ _ _ refl (leaves 10)) in
    let r6 = next _ _ r5 (timer_releases _ refl) in
    let r7 = next _ _ r6 (reclaims _ refl refl refl) in r7

-- When the timer's task cannot be added no share and no bit is left, and `tryExclusive` fails.
busy : Reachable (record (created false) { owners = 0; worker = failed })
unfolding created try_shared release_shared
busy = next _ _ (start false) (timer_busy _ refl)

busy-kept : (try_exclusive 0).0 ≡ false
unfolding try_exclusive
busy-kept = refl
