-- ===== src/HashMap.antt =====
-- include/common/concurrent_hash_map.h: a hash map of chained buckets. Each operation runs under the
-- lock of its bucket from its first read of the chain to its last write, and is one step here; the
-- lock itself is LifeCycleLock. A chain of nodes is the list of their keys and values.
pub mod Chain
pub mod Contents
pub mod Primes
pub mod Intrusive
pub mod Tests
use sofa_bolt_cpp.Base.{
  ℕ, ◌+◌, ◌-◌, ◌%◌, ◌^◌, Bool, true, false, Option, none, some, List, [], ◌∷◌, if◌then◌else◌, ◌==◌,
  ltb,
}

-- The table of `nextBucketNum`, without its last entry, which `lower_bound` is not given.
abbrev pub primes : List ℕ
primes =
    2 ∷ 3 ∷ 5 ∷ 7 ∷ 11 ∷ 13 ∷ 17 ∷ 19 ∷ 23 ∷ 29 ∷ 31 ∷ 37 ∷ 41 ∷ 43 ∷ 47 ∷ 53 ∷ 59 ∷ 61 ∷ 67 ∷ 71
    ∷ 73 ∷ 79 ∷ 83 ∷ 89 ∷ 97 ∷ 103 ∷ 109 ∷ 113 ∷ 127 ∷ 137 ∷ 139 ∷ 149 ∷ 157 ∷ 167 ∷ 179 ∷ 193 ∷ 199
    ∷ 211 ∷ 227 ∷ 241 ∷ 257 ∷ 277 ∷ 293 ∷ 313 ∷ 337 ∷ 359 ∷ 383 ∷ 409 ∷ 439 ∷ 467 ∷ 503 ∷ 541 ∷ 577
    ∷ 619 ∷ 661 ∷ 709 ∷ 761 ∷ 823 ∷ 887 ∷ 953 ∷ 1031 ∷ 1109 ∷ 1193 ∷ 1289 ∷ 1381 ∷ 1493 ∷ 1613
    ∷ 1741 ∷ 1879 ∷ 2029 ∷ 2179 ∷ 2357 ∷ 2549 ∷ 2753 ∷ 2971 ∷ 3209 ∷ 3469 ∷ 3739 ∷ 4027 ∷ 4349
    ∷ 4703 ∷ 5087 ∷ 5503 ∷ 5953 ∷ 6427 ∷ 6949 ∷ 7517 ∷ 8123 ∷ 8783 ∷ 9497 ∷ 10273 ∷ 11113 ∷ 12011
    ∷ 12983 ∷ 14033 ∷ 15173 ∷ 16411 ∷ 17749 ∷ 19183 ∷ 20753 ∷ 22447 ∷ 24281 ∷ 26267 ∷ 28411 ∷ 30727
    ∷ 33223 ∷ 35933 ∷ 38873 ∷ 42043 ∷ 45481 ∷ 49201 ∷ 53201 ∷ 57557 ∷ 62233 ∷ 67307 ∷ 72817 ∷ 78779
    ∷ 85229 ∷ 92203 ∷ 99733 ∷ 107897 ∷ 116731 ∷ 126271 ∷ 136607 ∷ 147793 ∷ 159871 ∷ 172933 ∷ 187091
    ∷ 202409 ∷ 218971 ∷ 236897 ∷ 256279 ∷ 277261 ∷ 299951 ∷ 324503 ∷ 351061 ∷ 379787 ∷ 410857
    ∷ 444487 ∷ 480881 ∷ 520241 ∷ 562841 ∷ 608903 ∷ 658753 ∷ 712697 ∷ 771049 ∷ 834181 ∷ 902483
    ∷ 976369 ∷ 1056323 ∷ 1142821 ∷ 1236397 ∷ 1337629 ∷ 1447153 ∷ 1565659 ∷ 1693859 ∷ 1832561
    ∷ 1982627 ∷ 2144977 ∷ 2320627 ∷ 2510653 ∷ 2716249 ∷ 2938679 ∷ 3179303 ∷ 3439651 ∷ 3721303
    ∷ 4026031 ∷ 4355707 ∷ 4712381 ∷ 5098259 ∷ 5515729 ∷ 5967347 ∷ 6456007 ∷ 6984629 ∷ 7556579
    ∷ 8175383 ∷ 8844859 ∷ 9569143 ∷ 10352717 ∷ 11200489 ∷ 12117689 ∷ 13109983 ∷ 14183539 ∷ 15345007
    ∷ 16601593 ∷ 17961079 ∷ 19431899 ∷ 21023161 ∷ 22744717 ∷ 24607243 ∷ 26622317 ∷ 28802401
    ∷ 31160981 ∷ 33712729 ∷ 36473443 ∷ 39460231 ∷ 42691603 ∷ 46187573 ∷ 49969847 ∷ 54061849
    ∷ 58488943 ∷ 63278561 ∷ 68460391 ∷ 74066549 ∷ 80131819 ∷ 86693767 ∷ 93793069 ∷ 101473717
    ∷ 109783337 ∷ 118773397 ∷ 128499677 ∷ 139022417 ∷ 150406843 ∷ 162723577 ∷ 176048909 ∷ 190465427
    ∷ 206062531 ∷ 222936881 ∷ 241193053 ∷ 260944219 ∷ 282312799 ∷ 305431229 ∷ 330442829 ∷ 357502601
    ∷ 386778277 ∷ 418451333 ∷ 452718089 ∷ 489790921 ∷ 529899637 ∷ 573292817 ∷ 620239453 ∷ 671030513
    ∷ 725980837 ∷ 785430967 ∷ 849749479 ∷ 919334987 ∷ 994618837 ∷ 1076067617 ∷ 1164186217
    ∷ 1259520799 ∷ 1362662261 ∷ 1474249943 ∷ 1594975441 ∷ 1725587117 ∷ 1866894511 ∷ 2019773507
    ∷ 2185171673 ∷ 2364114217 ∷ 2557710269 ∷ 2767159799 ∷ 2993761039 ∷ 3238918481 ∷ 3504151727
    ∷ 3791104843 ∷ 4101556399 ∷ []

-- `std::lower_bound` over a sorted range: the first element that is not below `n`, and the place
-- behind the range, which is the last prime, if there is none.
pub lower_bound : List ℕ → ℕ → ℕ → ℕ
lower_bound [] end n = end
lower_bound (p ∷ ps) end n = if ltb p n then lower_bound ps end n else p

pub next_bucket_num : ℕ → ℕ
next_bucket_num n = lower_bound primes 4294967291 n

-- The intrusive operations take nodes of the caller, which may already have followers by `hash_next`:
-- a node is its key and value, and the list of its followers.
abbrev pub Node : Type 0 → Type 0 → Type 0
Node K V = (K × V) × List (K × V)

module _ {K V : Type 0} (eq : K → K → Bool) where
  -- `put_nolock`: whether the node went in, and the chain.
  pub put_nolock : List (K × V) → K → V → Bool × List (K × V)
  put_nolock [] k v = (true, (k, v) ∷ [])
  put_nolock ((j, w) ∷ c) k v =
      let (r, c') = put_nolock c k v in if eq j k then (false, (j, w) ∷ c) else (r, (j, w) ∷ c')

  -- `exchange_nolock`: whether the key was there, the value that the caller is left with, the chain.
  pub exchange_nolock : List (K × V) → K → V → Bool × V × List (K × V)
  exchange_nolock [] k v = (false, v, (k, v) ∷ [])
  exchange_nolock ((j, w) ∷ c) k v =
      let (r, u, c') = exchange_nolock c k v in
      if eq j k then (true, w, (j, v) ∷ c) else (r, u, (j, w) ∷ c')

  -- `get_nolock`
  pub get_nolock : List (K × V) → K → Option V
  get_nolock [] k = none
  get_nolock ((j, w) ∷ c) k = let rest = get_nolock c k in if eq j k then some w else rest

  -- `erase_nolock`
  pub erase_nolock : List (K × V) → K → Bool × List (K × V)
  erase_nolock [] k = (false, [])
  erase_nolock ((j, w) ∷ c) k =
      let (r, c') = erase_nolock c k in if eq j k then (true, c) else (r, (j, w) ∷ c')

  -- `intrusive_put_nolock`
  pub intrusive_put_nolock : List (K × V) → K → Node K V → Bool × List (K × V)
  intrusive_put_nolock [] k n = (true, n.0 ∷ n.1)
  intrusive_put_nolock ((j, w) ∷ c) k n =
      let (r, c') = intrusive_put_nolock c k n in
      if eq j k then (false, (j, w) ∷ c) else (r, (j, w) ∷ c')

  -- `intrusive_exchange_nolock`: the node of the key makes room for the caller's, and the caller is
  -- left with it. Followers stay with their node.
  pub intrusive_exchange_nolock : List (K × V) → K → Node K V → Bool × Node K V × List (K × V)
  intrusive_exchange_nolock [] k n = (false, n, n.0 ∷ n.1)
  intrusive_exchange_nolock ((j, w) ∷ c) k n =
      let (r, o, c') = intrusive_exchange_nolock c k n in
      if eq j k then (true, ((j, w), c), n.0 ∷ n.1) else (r, o, (j, w) ∷ c')

  -- `intrusive_erase_nolock`
  pub intrusive_erase_nolock : List (K × V) → K → Bool × Option (Node K V) × List (K × V)
  intrusive_erase_nolock [] k = (false, none, [])
  intrusive_erase_nolock ((j, w) ∷ c) k =
      let (r, o, c') = intrusive_erase_nolock c k in
      if eq j k then (true, some ((j, w), c), c) else (r, o, (j, w) ∷ c')

-- `ConcurrentHashMap`, its locks left out.
pub record HashMap (K V : Type 0) : Type 0 where
  pub buckets : ℕ → List (K × V)
  pub bucket_size : ℕ
  pub element_size : ℕ

-- The constructor: `calloc` gives empty buckets.
pub new_map : {K V : Type 0} → ℕ → HashMap K V
new_map hint = record { buckets = λ _. []; bucket_size = next_bucket_num hint; element_size = 0 }

module _ {K V : Type 0} (eq : K → K → Bool) (hash : K → ℕ) where
  -- `get_entry`: the bucket of a key, and which of `lock_size` locks guards it.
  abbrev pub slot : HashMap K V → K → ℕ
  slot m k = hash k % m.bucket_size

  abbrev pub lock_of : HashMap K V → ℕ → K → ℕ
  lock_of m lock_size k = slot m k % lock_size

  abbrev pub set_bucket : HashMap K V → ℕ → List (K × V) → ℕ → HashMap K V
  set_bucket m i c n = record m {
    buckets = λ j. if j == i then c else m.buckets j;
    element_size = n % 2 ^ 64;
  }

  -- `put`, `exchange`, `get` and `erase`, with what they return.
  pub put : HashMap K V → K → V → Bool × HashMap K V
  put m k v =
      let (r, c) = put_nolock eq (m.buckets (slot m k)) k v in
      (r, set_bucket m (slot m k) c (if r then m.element_size + 1 else m.element_size))

  pub exchange : HashMap K V → K → V → Bool × V × HashMap K V
  exchange m k v =
      let (r, u, c) = exchange_nolock eq (m.buckets (slot m k)) k v in
      (r, u, set_bucket m (slot m k) c (if r then m.element_size else m.element_size + 1))

  pub get : HashMap K V → K → Option V
  get m k = get_nolock eq (m.buckets (slot m k)) k

  pub erase : HashMap K V → K → Bool × HashMap K V
  erase m k =
      let (r, c) = erase_nolock eq (m.buckets (slot m k)) k in
      (r, set_bucket m (slot m k) c (if r then m.element_size + 2 ^ 64 - 1 else m.element_size))
