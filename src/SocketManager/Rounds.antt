-- ===== src/SocketManager/Rounds.antt =====
-- Rounds of `watchConnections` of src/tcp/socket_manager.cpp.
use sofa_bolt_cpp.Base.{
  is, ℕ, suc, ◌+◌, ◌%◌, ◌<◌, ◌≡◌, refl, ap, ◌∙◌, inl, inr, Bool, true, false, Bool-cases, List, [],
  ◌∷◌, ◌++◌, arith, if◌then◌else◌, ltb, ◌==◌, ==→eq, count, count-append,
}
use sofa_bolt_cpp.SocketManager.{Sock, Manager, collect, reclaim_from, reclaim, watch_connections}
use sofa_bolt_cpp.SocketManager.Release.{
  Later, collect-Later, collect-count, collect-off, release-Later, release-count, release-gone,
  release-dropped,
}

-- What `reclaim_from` does with its list.
pub record Reclaimed (size : ℕ) (notified : Bool) (m : Manager) (l : List ℕ) (r : Manager × List ℕ)
    : Type 0 where
  pub same_list : r.0.list ≡ m.list
  pub later : (x : ℕ) → Later (m.sock x) (r.0.sock x)
  pub counts : (x : ℕ) → count (is x) r.0.reclaim_list + count (is x) r.1 ≡ count (is x) l
  pub gone :
      (x : ℕ)
      → count (is x) r.1 ≡ (
          if notified
          then (if (m.sock x).fd % size == m.reclaim_counter % size then count (is x) l else 0)
          else 0)
  pub counter : (x : ℕ) → 0 < count (is x) l → r.0.reclaim_counter ≡ suc m.reclaim_counter
  pub dropped : (x : ℕ) → 0 < count (is x) r.1 → (r.0.sock x).on_read ≡ false

still : (s : Sock) → Later s s
still s = record { fd = refl; off = λ e. e; dropped = λ e. e }

reclaim_from-Reclaimed :
    (size : ℕ) (notified : Bool) (m : Manager) (l : List ℕ)
    → m.reclaim_list ≡ l
    → Reclaimed size notified m l (reclaim_from size notified m l)
unfolding reclaim_from
reclaim_from-Reclaimed size notified m [] e = record {
  same_list = refl;
  later = λ x. still (m.sock x);
  counts = λ x. omega (arith, ap (count (is x)) e);
  gone = λ x. none_gone notified ((m.sock x).fd % size == m.reclaim_counter % size);
  counter = λ x h. absurd (omega (arith, h));
  dropped = λ x h. absurd (omega (arith, h));
}
  where
    none_gone : (n t : Bool) → ◌≡◌ {A = ℕ} 0 (if n then (if t then 0 else 0) else 0)
    none_gone true true = refl
    none_gone true false = refl
    none_gone false t = refl
reclaim_from-Reclaimed size true m (y ∷ ys) e = record {
  same_list = refl;
  later = release-Later size (m.reclaim_counter % size) (y ∷ ys) m.sock;
  counts = release-count size (m.reclaim_counter % size) (y ∷ ys) m.sock;
  gone = release-gone size (m.reclaim_counter % size) (y ∷ ys) m.sock;
  counter = λ x h. refl;
  dropped = release-dropped size (m.reclaim_counter % size) (y ∷ ys) m.sock;
}
reclaim_from-Reclaimed size false m (y ∷ ys) e = record {
  same_list = refl;
  later = λ x. still (m.sock x);
  counts = λ x. omega (arith, ap (count (is x)) e);
  gone = λ x. refl;
  counter = λ x h. refl;
  dropped = λ x h. absurd (omega (arith, h));
}

-- Sockets that are not polled.
abbrev pub AllOff : (ℕ → Sock) → List ℕ → Type 0
AllOff sock [] = Unit {0}
AllOff sock (x ∷ xs) = ((sock x).scheduled ≡ false) × AllOff sock xs

AllOff-count :
    (sock : ℕ → Sock) (l : List ℕ) (x : ℕ)
    → AllOff sock l
    → 0 < count (is x) l
    → (sock x).scheduled ≡ false
AllOff-count sock [] x off h = absurd (omega (arith, h))
AllOff-count sock (y ∷ l) x off h = elim (Bool-cases (x == y)) [
  | inl e ↦ ap (λ z. (sock z).scheduled) (==→eq x y e) ∙ off.0
  | inr e ↦ AllOff-count sock l x off.1 (omega (arith, rw e at h))
]

count-AllOff :
    (sock : ℕ → Sock) (l : List ℕ)
    → ((x : ℕ) → 0 < count (is x) l → (sock x).scheduled ≡ false)
    → AllOff sock l
count-AllOff sock [] h = tt
count-AllOff sock (y ∷ l) h =
    let self : (y == y) ≡ true = ground arith in
    (h y (rw self (omega arith)), count-AllOff sock l (λ x more. h x (omega (arith, more))))

module _ (exclusive : ℕ → Bool) (size : ℕ) (notified : Bool) (m : Manager) where
  -- The manager between the two steps.
  unfoldable pub collected : Manager
  collected =
      let r = collect exclusive m.list m.sock in
      record m { list = r.0; reclaim_list = m.reclaim_list ++ r.1; sock = r.2 }

  pub done :
      Reclaimed size notified collected collected.reclaim_list
        (reclaim_from size notified collected collected.reclaim_list)
  done = reclaim_from-Reclaimed size notified collected collected.reclaim_list refl

  -- After a round every socket is where it was, in the list or the reclaim list, or is moved from the
  -- first to the second, or is released: each is there as often as before.
  pub watch_connections-count :
      (x : ℕ)
      → (let o = watch_connections exclusive size notified m in
          count (is x) o.manager.list
          + count (is x) o.manager.reclaim_list
          + count (is x) o.released)
        ≡ count (is x) m.list + count (is x) m.reclaim_list
  unfolding watch_connections reclaim collected
  watch_connections-count x = omega (
    arith,
    ap (count (is x)) done.same_list,
    done.counts x,
    collect-count exclusive m.list m.sock x,
    count-append (is x) m.reclaim_list (collect exclusive m.list m.sock).1,
  )

  pub collected-count :
      (x : ℕ)
      → count (is x) collected.list + count (is x) collected.reclaim_list
        ≡ count (is x) m.list + count (is x) m.reclaim_list
  unfolding collected
  collected-count x = omega (
    arith,
    collect-count exclusive m.list m.sock x,
    count-append (is x) m.reclaim_list (collect exclusive m.list m.sock).1,
  )

  pub collected-Later : (x : ℕ) → Later (m.sock x) (collected.sock x)
  unfolding collected
  collected-Later x = collect-Later exclusive m.list m.sock x

  collected-off :
      AllOff m.sock m.reclaim_list
      → (x : ℕ) → 0 < count (is x) collected.reclaim_list
      → (collected.sock x).scheduled ≡ false
  unfolding collected
  collected-off off x h = elim (Bool-cases (ltb 0 (count (is x) m.reclaim_list))) [
    | inl e ↦
        Later.off (collected-Later x) (AllOff-count m.sock m.reclaim_list x off (ground arith))
    | inr e ↦
        collect-off exclusive m.list m.sock x (
          ground (arith, h, count-append (is x) m.reclaim_list (collect exclusive m.list m.sock).1))
  ]

  watch_connections-AllOff :
      AllOff m.sock m.reclaim_list
      → (let o = watch_connections exclusive size notified m in
          AllOff o.manager.sock o.manager.reclaim_list)
  unfolding watch_connections reclaim collected
  watch_connections-AllOff off =
      count-AllOff (watch_connections exclusive size notified m).manager.sock
        (watch_connections exclusive size notified m).manager.reclaim_list
        λ x h. Later.off (done.later x) (collected-off off x (omega (arith, h, done.counts x)))
