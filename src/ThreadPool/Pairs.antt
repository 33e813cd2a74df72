-- ===== src/ThreadPool/Pairs.antt =====
-- Which threads that submit to the pool of include/common/thread_pool.h are paired with which of its own.
use sofa_bolt_cpp.Base.{
  ℕ, zero, suc, ◌≡◌, refl, ap, subst, sym, ◌∙◌, inl, inr, true, false, Bool-cases, Option, none,
  some, List, [], ◌∷◌, ◌==◌, ==→eq, arith, get_elem?, update,
}
use sofa_bolt_cpp.ThreadPool.{
  ThreadStatus, active, is_standby, SingleThread, ThreadPool, find_standby, activate, pair_new,
  push, has_room, submit_to,
}
use sofa_bolt_cpp.ThreadPool.Places.{find_standby-found}

-- The thread `i` is there and has a status.
abbrev pub StatusAt : ThreadStatus → ℕ → List SingleThread → Type 0
StatusAt st i ts = (t : SingleThread) × (get_elem? ts i ≡ some t) × (t.status ≡ st)

module _ (g : SingleThread → SingleThread) where
  pub get_elem?-update :
      (i : ℕ) (ts : List SingleThread) (t : SingleThread)
      → get_elem? ts i ≡ some t
      → get_elem? (update i g ts) i ≡ some (g t)
  get_elem?-update i [] t e = absurd (cc e)
  get_elem?-update zero (u ∷ ts) t e =
      ap (λ o. elim o [ none ↦ some (g u) | some z ↦ some (g z) ]) e
  get_elem?-update (suc i) (u ∷ ts) t e = get_elem?-update i ts t e

  pub get_elem?-update_ne :
      (i k : ℕ) (ts : List SingleThread)
      → (k == i) ≡ false
      → get_elem? (update i g ts) k ≡ get_elem? ts k
  get_elem?-update_ne i k [] ne = refl
  get_elem?-update_ne zero zero (u ∷ ts) ne = absurd (cc ne)
  get_elem?-update_ne zero (suc k) (u ∷ ts) ne = refl
  get_elem?-update_ne (suc i) zero (u ∷ ts) ne = refl
  get_elem?-update_ne (suc i) (suc k) (u ∷ ts) ne = get_elem?-update_ne i k ts (ground arith)

  pub StatusAt-other :
      (st : ThreadStatus) (i k : ℕ) (ts : List SingleThread)
      → (k == i) ≡ false
      → StatusAt st k ts
      → StatusAt st k (update i g ts)
  StatusAt-other st i k ts ne (t, e, h) = (t, get_elem?-update_ne i k ts ne ∙ e, h)

  -- A change that leaves every status as it is.
  pub StatusAt-kept :
      (st : ThreadStatus) (i k : ℕ) (ts : List SingleThread)
      → ((t : SingleThread) → (g t).status ≡ t.status)
      → StatusAt st k ts
      → StatusAt st k (update i g ts)
  StatusAt-kept st i k ts h (t, e, f) = elim (Bool-cases (k == i)) [
    | inl same ↦
        let here : k ≡ i = ==→eq k i same in
        let found : get_elem? ts i ≡ some t = ap (get_elem? ts) (sym here) ∙ e in
        (g t, ap (get_elem? (update i g ts)) here ∙ get_elem?-update i ts t found, h t ∙ f)
    | inr ne ↦ (t, get_elem?-update_ne i k ts ne ∙ e, f)
  ]

-- What the search for a thread for a caller leaves: all threads that were active stay so, and what is
-- found is active, and was not before.
pub record Paired (p : ThreadPool) (found : Option ℕ) (p' : ThreadPool) : Type 0 where
  pub stay : (k : ℕ) → StatusAt active k p.tds → StatusAt active k p'.tds
  pub mine :
      (i : ℕ)
      → found ≡ some i
      → StatusAt active i p'.tds × ((k : ℕ) → StatusAt active k p.tds → (k == i) ≡ false)

not_both : (t : SingleThread) → is_standby t.status ≡ true → t.status ≡ active → ⊥
unfolding is_standby
not_both t e f = cc (sym e ∙ ap is_standby f)

pub pair_new-Paired :
    (o : Option ℕ) (p : ThreadPool)
    → find_standby 0 p.tds ≡ o
    → Paired p (pair_new o p).0 (pair_new o p).1
unfolding pair_new activate
pair_new-Paired none p e = record { stay = λ k h. h; mine = λ i e. absurd (cc e) }
pair_new-Paired (some i) p e =
    let (j, same, (t, there, stands)) = find_standby-found 0 i p.tds e in
    let here : get_elem? p.tds i ≡ some t = ap (get_elem? p.tds) (omega (arith, same)) ∙ there in
    let differs = λ (k : ℕ) (h : StatusAt active k p.tds). differ i k p.tds t here stands h in
    record {
      stay = λ k h. StatusAt-other activate active i k p.tds (differs k h) h;
      mine = λ k f.
          let one : i ≡ k = ap (λ o. elim o [ none ↦ i | some z ↦ z ]) f in
          subst
            (λ k.
              StatusAt active k (update i activate p.tds)
              × ((l : ℕ) → StatusAt active l p.tds → (l == k) ≡ false))
            one ((activate t, get_elem?-update activate i p.tds t here, refl), differs);
    }
  where
    differ :
        (i k : ℕ) (ts : List SingleThread) (t : SingleThread)
        → get_elem? ts i ≡ some t
        → is_standby t.status ≡ true
        → StatusAt active k ts
        → (k == i) ≡ false
    differ i k ts t here stands (u, e, f) = elim (Bool-cases (k == i)) [
      | inr ne ↦ ne
      | inl same ↦
          let both : some t ≡ some u = sym here ∙ ap (get_elem? ts) (sym (==→eq k i same)) ∙ e in
          let one : t ≡ u = ap (λ o. elim o [ none ↦ t | some z ↦ z ]) both in
          absurd (not_both t stands (ap (λ x. x.status) one ∙ f))
    ]

-- A task that is placed changes no status.
pub submit_to-StatusAt :
    (task : ℕ) (paired td : Option ℕ) (p : ThreadPool) (k : ℕ)
    → StatusAt active k p.tds
    → StatusAt active k (submit_to task paired td p).pool.tds
unfolding submit_to push
submit_to-StatusAt task paired none p k h = h
submit_to-StatusAt task paired (some j) p k h = elim (Bool-cases (has_room j p)) [
  | inr e ↦ rw e h
  | inl e ↦ rw e (StatusAt-kept (push task) active j k p.tds (λ t. refl) h)
]
