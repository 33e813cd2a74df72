-- ===== src/SocketManager/Release.antt =====
-- The two loops of `watchConnections` of src/tcp/socket_manager.cpp: which sockets they move, and what
-- they change on them.
use sofa_bolt_cpp.Base.{
  is, ℕ, ◌+◌, ◌%◌, ◌<◌, ◌≡◌, refl, ap, subst, sym, ◌∙◌, inl, inr, Bool, true, false, Bool-cases,
  List, [], ◌∷◌, arith, if◌then◌else◌, ◌==◌, ==→eq, count,
}
use sofa_bolt_cpp.SocketManager.{Sock, set_sock, disconnect, drop_on_read, collect, release}

-- What no loop changes of a socket, and what each changes only one way.
pub record Later (s s' : Sock) : Type 0 where
  pub fd : s'.fd ≡ s.fd
  pub off : s.scheduled ≡ false → s'.scheduled ≡ false
  pub dropped : s.on_read ≡ false → s'.on_read ≡ false

Later-refl : (s : Sock) → Later s s
Later-refl s = record { fd = refl; off = λ e. e; dropped = λ e. e }

pub Later-trans : {s t u : Sock} → Later s t → Later t u → Later s u
Later-trans a b = record {
  fd = b.fd ∙ a.fd;
  off = λ e. b.off (a.off e);
  dropped = λ e. b.dropped (a.dropped e);
}

set_sock-Later :
    (x : ℕ) (f : Sock → Sock) (sock : ℕ → Sock) (y : ℕ)
    → ((s : Sock) → Later s (f s))
    → Later (sock y) (set_sock x f sock y)
set_sock-Later x f sock y h = elim (Bool-cases (x == y)) [
  | inl e ↦ rw e (h (sock y))
  | inr e ↦ rw e (Later-refl (sock y))
]

disconnect-Later :
    (b : Bool) (x : ℕ) (sock : ℕ → Sock) (y : ℕ)
    → Later (sock y) ((if b then disconnect x sock else sock) y)
unfolding disconnect
disconnect-Later true x sock y =
    set_sock-Later x _ sock y λ s. record { fd = refl; off = λ e. refl; dropped = λ e. e }
disconnect-Later false x sock y = Later-refl (sock y)

drop-Later :
    (b : Bool) (x : ℕ) (sock : ℕ → Sock) (y : ℕ)
    → Later (sock y) ((if b then drop_on_read x sock else sock) y)
unfolding drop_on_read
drop-Later true x sock y =
    set_sock-Later x _ sock y λ s. record { fd = refl; off = λ e. e; dropped = λ e. refl }
drop-Later false x sock y = Later-refl (sock y)

module _ (exclusive : ℕ → Bool) where
  pub collect-Later :
      (xs : List ℕ) (sock : ℕ → Sock) (y : ℕ) → Later (sock y) ((collect exclusive xs sock).2 y)
  unfolding collect
  collect-Later [] sock y = Later-refl (sock y)
  collect-Later (x ∷ xs) sock y =
      let rest =
        Later-trans (disconnect-Later (exclusive x) x sock y)
          (collect-Later xs (if exclusive x then disconnect x sock else sock) y) in
      elim (Bool-cases (exclusive x)) [ inl e ↦ rw e (rw e at rest) | inr e ↦ rw e (rw e at rest) ]

  pub collect-count :
      (xs : List ℕ) (sock : ℕ → Sock) (x : ℕ)
      → count (is x) (collect exclusive xs sock).0 + count (is x) (collect exclusive xs sock).1
        ≡ count (is x) xs
  unfolding collect
  collect-count [] sock x = omega arith
  collect-count (y ∷ xs) sock x =
      let rest = collect-count xs (if exclusive y then disconnect y sock else sock) x in
      elim (Bool-cases (exclusive y)) [
        | inl e ↦ rw e (omega (arith, rw e at rest))
        | inr e ↦ rw e (omega (arith, rw e at rest))
      ]

  -- What is taken out of the list is not polled any more.
  pub collect-off :
      (xs : List ℕ) (sock : ℕ → Sock) (x : ℕ)
      → 0 < count (is x) (collect exclusive xs sock).1
      → ((collect exclusive xs sock).2 x).scheduled ≡ false
  unfolding collect disconnect
  collect-off [] sock x h = absurd (omega (arith, h))
  collect-off (y ∷ xs) sock x h = elim (Bool-cases (exclusive y)) [
    | inl e ↦ elim (Bool-cases (x == y)) [
      | inl same ↦
          let here : y ≡ x = sym (==→eq x y same) in
          rw e (Later.off (collect-Later xs (disconnect y sock) x) (rw here (rw (self x) refl)))
      | inr other ↦ rw e (collect-off xs (disconnect y sock) x (omega (arith, rw (e, other) at h)))
    ]
    | inr e ↦ rw e (collect-off xs sock x (rw e at h))
  ]
    where
      self : (x : ℕ) → (x == x) ≡ true
      self x = ground arith

module _ (size cur_idx : ℕ) where
  pub release-Later :
      (xs : List ℕ) (sock : ℕ → Sock) (y : ℕ) → Later (sock y) ((release size cur_idx xs sock).2 y)
  unfolding release
  release-Later [] sock y = Later-refl (sock y)
  release-Later (x ∷ xs) sock y =
      let ours : Bool = (sock x).fd % size == cur_idx in
      let rest =
        Later-trans (drop-Later ours x sock y)
          (release-Later xs (if ours then drop_on_read x sock else sock) y) in
      elim (Bool-cases ours) [ inl e ↦ rw e (rw e at rest) | inr e ↦ rw e (rw e at rest) ]

  pub release-count :
      (xs : List ℕ) (sock : ℕ → Sock) (x : ℕ)
      → count (is x) (release size cur_idx xs sock).0
          + count (is x) (release size cur_idx xs sock).1
        ≡ count (is x) xs
  unfolding release
  release-count [] sock x = omega arith
  release-count (y ∷ xs) sock x =
      let ours : Bool = (sock y).fd % size == cur_idx in
      let rest = release-count xs (if ours then drop_on_read y sock else sock) x in
      elim (Bool-cases ours) [
        | inl e ↦ rw e (omega (arith, rw e at rest))
        | inr e ↦ rw e (omega (arith, rw e at rest))
      ]

  -- The sockets that are released are exactly those of the thread.
  pub release-gone :
      (xs : List ℕ) (sock : ℕ → Sock) (x : ℕ)
      → count (is x) (release size cur_idx xs sock).1
        ≡ (if (sock x).fd % size == cur_idx then count (is x) xs else 0)
  unfolding release
  release-gone [] sock x = elim (Bool-cases ((sock x).fd % size == cur_idx)) [
    | inl e ↦ rw e refl
    | inr e ↦ rw e refl
  ]
  release-gone (y ∷ xs) sock x =
      let ours : Bool = (sock y).fd % size == cur_idx in
      let sock' : ℕ → Sock = if ours then drop_on_read y sock else sock in
      let rest =
        subst
          (λ n.
            count (is x) (release size cur_idx xs sock').1
            ≡ (if n == cur_idx then count (is x) xs else 0))
          (ap (λ n. n % size) (Later.fd (drop-Later ours y sock x))) (release-gone xs sock' x) in
      let one_socket : (x == y) ≡ true → ((sock x).fd % size == cur_idx) ≡ ours =
        λ here. ap (λ z. (sock z).fd % size == cur_idx) (==→eq x y here) in
      elim (Bool-cases ours) [
        | inl e ↦ rw e (
            added ((sock x).fd % size == cur_idx) (x == y) _ _ (rw e at rest)
              (λ here. one_socket here ∙ e))
        | inr e ↦ rw e (
            not_added ((sock x).fd % size == cur_idx) (x == y) _ _ (rw e at rest)
              (λ here. one_socket here ∙ e))
      ]
    where
      added :
          (t b : Bool) (n m : ℕ)
          → n ≡ (if t then m else 0)
          → (b ≡ true → t ≡ true)
          → (if b then 1 else 0) + n ≡ (if t then (if b then 1 else 0) + m else 0)
      added true b n m e h = ap (λ k. (if b then 1 else 0) + k) e
      added false true n m e h = absurd (cc (h refl))
      added false false n m e h = omega (arith, e)

      not_added :
          (t b : Bool) (n m : ℕ)
          → n ≡ (if t then m else 0)
          → (b ≡ true → t ≡ false)
          → n ≡ (if t then (if b then 1 else 0) + m else 0)
      not_added true true n m e h = absurd (cc (h refl))
      not_added true false n m e h = omega (arith, e)
      not_added false b n m e h = e

  -- A socket that is released no longer holds itself.
  pub release-dropped :
      (xs : List ℕ) (sock : ℕ → Sock) (x : ℕ)
      → 0 < count (is x) (release size cur_idx xs sock).1
      → ((release size cur_idx xs sock).2 x).on_read ≡ false
  unfolding release drop_on_read
  release-dropped [] sock x h = absurd (omega (arith, h))
  release-dropped (y ∷ xs) sock x h =
      let ours : Bool = (sock y).fd % size == cur_idx in
      elim (Bool-cases ours) [
        | inl e ↦ elim (Bool-cases (x == y)) [
          | inl same ↦
              let here : y ≡ x = sym (==→eq x y same) in
              let self : (x == x) ≡ true = ground arith in
              rw e
                (Later.dropped (release-Later xs (drop_on_read y sock) x) (rw here (rw self refl)))
          | inr other ↦
              rw e (release-dropped xs (drop_on_read y sock) x (omega (arith, rw (e, other) at h)))
        ]
        | inr e ↦ rw e (release-dropped xs sock x (rw e at h))
      ]
