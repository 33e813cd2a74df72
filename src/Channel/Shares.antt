-- ===== src/Channel/Shares.antt =====
-- src/channel/channel.cpp: a thread is counted in the one sub-channel of the pool that it keeps.
use sofa_bolt_cpp.Base.{
  ℕ, zero, suc, ◌+◌, ◌≤◌, ◌<◌, ◌≡◌, ◌⊎◌, refl, ap, sym, ◌∙◌, inl, inr, Bool, true, false, Option,
  none, some, List, [], ◌∷◌, Option-cases, Bool-cases, ◌==◌, eq→==, length, get_elem?, update,
  arith,
}
use native.Mathlib.Nat.{mod-lt}
use sofa_bolt_cpp.Channel.MostIdle.{Takes, here, there, most_idle-Chosen}
use sofa_bolt_cpp.Channel.{
  most_idle, no_minimum, ChannelSocket, SubChannel, Pool, use_sub_channel, use_at,
  choose_sub_channel, get_from_pool, get_if_none, get_from_own, get_sub_socket_internal,
  get_socket_internal,
}

-- How many threads the sub-channel `j` counts, and whether this one should be there.
abbrev pub shares_at : ℕ → List SubChannel → ℕ
shares_at j [] = 0
shares_at zero (c ∷ cs) = c.shared_num
shares_at (suc j) (c ∷ cs) = shares_at j cs

-- A number at the index `i`, and 0 at another.
abbrev pub at_index : (j i n : ℕ) → ℕ
at_index zero zero n = n
at_index zero (suc i) n = 0
at_index (suc j) zero n = 0
at_index (suc j) (suc i) n = at_index j i n

abbrev pub keeps_at : ℕ → Option ℕ → ℕ
keeps_at j none = 0
keeps_at j (some i) = at_index j i 1

abbrev pub keeps_one : Option ℕ → ℕ
keeps_one none = 0
keeps_one (some i) = 1

at_index-zero : (j i : ℕ) → at_index j i 0 ≡ 0
at_index-zero zero zero = refl
at_index-zero zero (suc i) = refl
at_index-zero (suc j) zero = refl
at_index-zero (suc j) (suc i) = at_index-zero j i

at_index-add : (j i a b : ℕ) → at_index j i (a + b) ≡ at_index j i a + at_index j i b
at_index-add zero zero a b = refl
at_index-add zero (suc i) a b = refl
at_index-add (suc j) zero a b = refl
at_index-add (suc j) (suc i) a b = at_index-add j i a b

at_index-suc : (j i n : ℕ) → at_index j i (suc n) ≡ at_index j i n + at_index j i 1
at_index-suc zero zero n = omega arith
at_index-suc zero (suc i) n = refl
at_index-suc (suc j) zero n = refl
at_index-suc (suc j) (suc i) n = at_index-suc j i n

shares_at-update :
    (j i : ℕ) (g : SubChannel → SubChannel) (cs : List SubChannel) (c : SubChannel)
    → get_elem? cs i ≡ some c
    → shares_at j (update i g cs) + at_index j i c.shared_num
      ≡ shares_at j cs + at_index j i (g c).shared_num
shares_at-update j i g [] c e = absurd (cc e)
shares_at-update zero zero g (d ∷ cs) c e = let e' : d ≡ c = cc e in rw e' (omega arith)
shares_at-update zero (suc i) g (d ∷ cs) c e = refl
shares_at-update (suc j) zero g (d ∷ cs) c e = refl
shares_at-update (suc j) (suc i) g (d ∷ cs) c e = shares_at-update j i g cs c e

-- A sub-channel is used, and a thread that is given no socket has counted itself out.
abbrev pub got : Option ChannelSocket → ℕ
got none = 0
got (some s) = 1

use_sub_channel-shares :
    (mark connected : Bool) (c : SubChannel)
    → 1 ≤ c.shared_num
    → let (s, c') = use_sub_channel mark connected c in c'.shared_num + 1 ≡ c.shared_num + got s
unfolding use_sub_channel
use_sub_channel-shares mark connected c h =
    elim (Option-cases (get_socket_internal connected c.channel).0) [
      | inl e ↦ rw e (omega (arith, h))
      | inr (s, e) ↦ rw e (omega arith)
    ]

get_elem?-lt :
    {A : Type 0} (xs : List A) (i : ℕ) → i < length xs → (x : A) × (get_elem? xs i ≡ some x)
get_elem?-lt [] i h = absurd (omega (arith, h))
get_elem?-lt (x ∷ xs) zero h = (x, refl)
get_elem?-lt (x ∷ xs) (suc i) h = get_elem?-lt xs i (omega (arith, h))

get_elem?-update :
    {A : Type 0} (g : A → A) (xs : List A) (i : ℕ) (x : A)
    → get_elem? xs i ≡ some x
    → get_elem? (update i g xs) i ≡ some (g x)
get_elem?-update g [] i x e = absurd (cc e)
get_elem?-update g (y ∷ xs) zero x e = let e' : y ≡ x = cc e in ap (λ z. some (g z)) e'
get_elem?-update g (y ∷ xs) (suc i) x e = get_elem?-update g xs i x e

Takes-lt :
    (own : Option ℕ) (j n i : ℕ) (cs : List SubChannel)
    → Takes own j n i cs
    → (i ≤ j) × (j < i + length cs)
Takes-lt own j n _ _ (here c cs e f) = (omega arith, omega arith)
Takes-lt own j n _ _ (there i c cs t) =
    let (low, high) = Takes-lt own j n (suc i) cs t in (omega (arith, low), omega (arith, high))

choose_sub_channel-lt :
    (random : ℕ) (own : Option ℕ) (cs : List SubChannel)
    → 0 < length cs
    → choose_sub_channel random own cs < length cs
unfolding choose_sub_channel
choose_sub_channel-lt random own cs h =
    let chosen = most_idle-Chosen own 0 cs 0 no_minimum in
    elim (Bool-cases ((most_idle own 0 cs 0 no_minimum).1 == no_minimum)) [
      | inl e ↦ rw e (mod-lt random h)
      | inr e ↦ rw e (elim chosen.found [
        | inl (f, g) ↦ let t : true ≡ false = sym (eq→== _ _ g) ∙ e in absurd (cc t)
        | inr (t, l) ↦ let (low, high) = Takes-lt own _ _ 0 cs t in omega (arith, high)
      ])
    ]

use_at-shares :
    (j : ℕ) (mark connected : Bool) (i : ℕ) (o : Option ℕ) (p : Pool) (c : SubChannel)
    → get_elem? p.sub_channels i ≡ some c
    → 1 ≤ c.shared_num
    → let p' = use_at mark connected i o p (some c) in
      shares_at j p'.sub_channels + at_index j i 1
      ≡ shares_at j p.sub_channels + at_index j i (got p'.given)
unfolding use_at
use_at-shares j mark connected i o p c e h =
    let (s, c') = use_sub_channel mark connected c in
    omega (
      arith,
      shares_at-update j i (λ d. c') p.sub_channels c e,
      ap (at_index j i) (use_sub_channel-shares mark connected c h),
      at_index-add j i c'.shared_num 1,
      at_index-add j i c.shared_num (got s),
    )

use_at-idx :
    (mark connected : Bool) (i : ℕ) (p : Pool) (c : SubChannel)
    → let p' = use_at mark connected i none p (some c) in
      (keeps_one p'.idx ≡ got p'.given)
      × ((j : ℕ) → keeps_at j p'.idx ≡ at_index j i (got p'.given))
unfolding use_at
use_at-idx mark connected i p c = keeps (use_sub_channel mark connected c).0
  where
    keeps :
        (s : Option ChannelSocket)
        → let o : Option ℕ = elim s [ none ↦ none | some t ↦ some i ] in
          (keeps_one o ≡ got s) × ((j : ℕ) → keeps_at j o ≡ at_index j i (got s))
    keeps none = (refl, λ j. omega (arith, at_index-zero j i))
    keeps (some t) = (refl, λ j. refl)

get_from_pool-shares :
    (random : ℕ) (connected : Bool) (p : Pool)
    → 0 < length p.sub_channels
    → let p' = get_from_pool random connected p in
      ((j : ℕ) → shares_at j p'.sub_channels ≡ shares_at j p.sub_channels + keeps_at j p'.idx)
      × (keeps_one p'.idx ≡ got p'.given)
unfolding get_from_pool
get_from_pool-shares random connected p h =
    let i = choose_sub_channel random p.idx p.sub_channels in
    let more : SubChannel → SubChannel = λ c. record c { shared_num = suc c.shared_num } in
    let cs = update i more p.sub_channels in
    let (c, e) =
      get_elem?-lt p.sub_channels i (choose_sub_channel-lt random p.idx p.sub_channels h) in
    let found : get_elem? cs i ≡ some (more c) = get_elem?-update more p.sub_channels i c e in
    let (one, where_to) = use_at-idx true connected i (record p { sub_channels = cs }) (more c) in
    rw found (
      λ j. omega (
        arith,
        use_at-shares j true connected i none (record p { sub_channels = cs }) (more c) found
            (omega arith),
        shares_at-update j i more p.sub_channels c e,
        at_index-suc j i c.shared_num,
        where_to j,
      ),
      one,
    )

-- A thread that keeps the sub-channel `o` of the pool, if any, is counted there.
unfoldable pub IsCounted : Pool → Option ℕ → Type 0
IsCounted p o =
    (o ≡ none)
    ⊎ ((i : ℕ) × (c : SubChannel) × (o ≡ some i)
        × (get_elem? p.sub_channels i ≡ some c)
        × (1 ≤ c.shared_num))

update-length : {A : Type 0} (i : ℕ) (g : A → A) (xs : List A) → length (update i g xs) ≡ length xs
update-length i g [] = refl
update-length zero g (x ∷ xs) = refl
update-length (suc i) g (x ∷ xs) = omega (arith, update-length i g xs)

-- The counts of the pool `p'` against those of `p`, of whose sub-channels the thread kept `o`.
pub record Shares (p : Pool) (o : Option ℕ) (p' : Pool) : Type 0 where
  pub counted :
      (j : ℕ)
      → shares_at j p'.sub_channels + keeps_at j o ≡ shares_at j p.sub_channels + keeps_at j p'.idx
  pub kept : keeps_one p'.idx ≡ got p'.given

after_own-Shares :
    (random i : ℕ) (second : Bool) (p p' : Pool) (o : Option ChannelSocket)
    → p'.given ≡ o
    → 0 < length p'.sub_channels
    → ((j : ℕ)
        → shares_at j p'.sub_channels + at_index j i 1
          ≡ shares_at j p.sub_channels + at_index j i (got o))
    → p'.idx ≡ some i
    → Shares p (some i) (get_if_none random second p' o)
unfolding get_if_none
after_own-Shares random i second p p' none e h used stays =
    let (more, kept) = get_from_pool-shares random second p' h in
    record { counted = λ j. omega (arith, used j, more j, at_index-zero j i); kept = kept }
after_own-Shares random i second p p' (some s) e h used stays = record {
  counted = λ j. omega (arith, used j, ap (keeps_at j) stays);
  kept = ap keeps_one stays ∙ sym (ap got e);
}

own-Shares :
    (random i : ℕ) (first second : Bool) (p : Pool) (c : SubChannel)
    → 0 < length p.sub_channels
    → get_elem? p.sub_channels i ≡ some c
    → 1 ≤ c.shared_num
    → let p' = use_at false first i (some i) p (some c) in
      Shares p (some i) (get_if_none random second p' p'.given)
unfolding use_at
own-Shares random i first second p c h e least =
    let p' = use_at false first i (some i) p (some c) in
    let same = update-length i (λ d. (use_sub_channel false first c).1) p.sub_channels in
    after_own-Shares random i second p p' p'.given refl (omega (arith, h, same))
      (λ j. use_at-shares j false first i (some i) p c e least)
      (keeps (use_sub_channel false first c).0)
  where
    keeps :
        (s : Option ChannelSocket)
        → ◌≡◌ {A = Option ℕ} (elim s [ none ↦ some i | some t ↦ some i ]) (some i)
    keeps none = refl
    keeps (some t) = refl

get_from_own-Shares :
    (random : ℕ) (first second : Bool) (p : Pool) (o : Option ℕ)
    → 0 < length p.sub_channels
    → IsCounted p o
    → Shares p o (get_from_own random first second p o)
unfolding get_from_own IsCounted
get_from_own-Shares random first second p none h c =
    let (more, kept) = get_from_pool-shares random second p h in
    record { counted = λ j. omega (arith, more j); kept = kept }
get_from_own-Shares random first second p (some j) h (inl e) = absurd (cc e)
get_from_own-Shares random first second p (some j) h (inr (i, c, e, found, least)) =
    let same : i ≡ j = cc e in
    let there : get_elem? p.sub_channels j ≡ some c =
      ap (get_elem? p.sub_channels) (sym same) ∙ found in
    rw there (own-Shares random j first second p c h there least)

-- When a thread, which is counted in the sub-channel that it keeps, if it keeps one, asks a pool that is
-- not empty for a socket, each sub-channel counts as many threads as before, apart from this one, which
-- is counted no longer in the sub-channel that it kept and once in the one that it keeps now; and it keeps
-- one if and only if it is given a socket. No other thread calls in the meantime.
pub get_sub_socket_internal-Shares :
    (random : ℕ) (first second : Bool) (p : Pool)
    → 0 < length p.sub_channels
    → IsCounted p p.idx
    → Shares p p.idx (get_sub_socket_internal random first second p)
unfolding get_sub_socket_internal
get_sub_socket_internal-Shares random first second p h c =
    get_from_own-Shares random first second p p.idx h c
