-- ===== src/IntrusiveList.antt =====
-- include/common/intrusive_list.h: a doubly linked list of nodes that threads change with compare and
-- exchange. The calls are run here with no other thread between their accesses. A node is its number,
-- and `nullptr` is 0.
pub mod Chain
pub mod Changes
pub mod Calls
pub mod Removal
pub mod Tests
use sofa_bolt_cpp.Base.{
  ℕ, zero, suc, ◌+◌, ◌-◌, Bool, true, false, ◌||◌, not, Option, none, some, if◌then◌else◌, ◌==◌,
}

pub record Links : Type 0 where
  pub prev : ℕ → ℕ
  pub next : ℕ → ℕ

pub record IntrusiveList : Type 0 where
  pub header : ℕ
  pub tail : ℕ
  pub links : Links
  pub size : ℕ

abbrev pub set_prev : ℕ → ℕ → Links → Links
set_prev p q l = record l { prev = λ x. if x == p then q else l.prev x }

abbrev pub set_next : ℕ → ℕ → Links → Links
set_next p q l = record l { next = λ x. if x == p then q else l.next x }

-- `compare_exchange_strong` on the `prev` and on the `next` of a node.
pub cas_prev : ℕ → ℕ → ℕ → Links → Bool × Links
cas_prev p expect q l = if l.prev p == expect then (true, set_prev p q l) else (false, l)

pub cas_next : ℕ → ℕ → ℕ → Links → Bool × Links
cas_next p expect q l = if l.next p == expect then (true, set_next p q l) else (false, l)

-- The constructor.
pub new_list : ℕ → ℕ → Links → IntrusiveList
new_list header tail l = record {
  header = header;
  tail = tail;
  links = set_prev tail header (set_next header tail l);
  size = 0;
}

-- `insert_once` and `remove_once`. Their last loop ends in the first round or, alone, never, which is
-- `none`.
pub insert_last : (p n c : ℕ) → Links → Option (Bool × Links)
unfolding cas_prev
insert_last p n c l = let (ok, l') = cas_prev n p c l in if ok then some (true, l') else none

pub insert_linked : (p n c : ℕ) → Bool × Links → Option (Bool × Links)
unfolding cas_prev cas_next insert_last
insert_linked p n c (true, l) = insert_last p n c l
insert_linked p n c (false, l) = some (false, (cas_prev c p 0 (cas_next c n 0 l).1).1)

pub insert_owned : (p n c : ℕ) → Bool × Links → Option (Bool × Links)
unfolding cas_next insert_linked
insert_owned p n c (true, l) = insert_linked p n c (cas_next p n c (set_next c n l))
insert_owned p n c (false, l) = some (false, l)

pub insert_once : (p n c : ℕ) → Links → Option (Bool × Links)
unfolding cas_prev insert_owned
insert_once p n c l =
    if l.prev n == p then insert_owned p n c (cas_prev c 0 p l) else some (false, l)

pub remove_last : (p n c : ℕ) → Links → Option (Bool × Links)
unfolding cas_prev
remove_last p n c l = let (ok, l') = cas_prev n c p l in if ok then some (true, l') else none

pub remove_unlinked : (p n c : ℕ) → Bool × Links → Option (Bool × Links)
unfolding cas_prev cas_next remove_last
remove_unlinked p n c (true, l) = remove_last p n c l
remove_unlinked p n c (false, l) = some (false, (cas_next c 0 n (cas_prev c 0 p l).1).1)

pub remove_cleared : (p n c : ℕ) → Bool × Links → Option (Bool × Links)
unfolding cas_prev cas_next remove_unlinked
remove_cleared p n c (true, l) = remove_unlinked p n c (cas_next p c n l)
remove_cleared p n c (false, l) = some (false, (cas_prev c 0 p l).1)

pub remove_owned : (p n c : ℕ) → Bool × Links → Option (Bool × Links)
unfolding cas_next remove_cleared
remove_owned p n c (true, l) = remove_cleared p n c (cas_next c n 0 l)
remove_owned p n c (false, l) = some (false, l)

pub remove_once : (p n c : ℕ) → Links → Option (Bool × Links)
unfolding cas_prev remove_owned
remove_once p n c l =
    if l.prev n == c
    then (if l.next p == c then remove_owned p n c (cas_prev c p 0 l) else some (false, l))
    else some (false, l)

-- What a call comes to: a result and the list, another round, or no end.
pub data Tried : Type 0 where
  returns : (found : ℕ) → IntrusiveList → Tried
  retries : IntrusiveList → Tried
  stuck : Tried

abbrev pub after_insert : ℕ → IntrusiveList → Option (Bool × Links) → Tried
after_insert c s none = stuck
after_insert c s (some (true, l)) = returns c (record s { links = l; size = suc s.size })
after_insert c s (some (false, l)) = retries (record s { links = l })

abbrev pub after_remove : ℕ → IntrusiveList → Option (Bool × Links) → Tried
after_remove c s none = stuck
after_remove c s (some (true, l)) = returns c (record s { links = l; size = s.size - 1 })
after_remove c s (some (false, l)) = retries (record s { links = l })

-- One round of the loops. A result of 0 is `nullptr` or false, and `remove` returns true as its node.
pub push_front_round : ℕ → IntrusiveList → Tried
unfolding insert_once
push_front_round c s =
    if s.links.prev c == 0
    then after_insert c s (insert_once s.header (s.links.next s.header) c s.links)
    else returns 0 s

pub push_back_round : ℕ → IntrusiveList → Tried
unfolding insert_once
push_back_round c s =
    if s.links.prev c == 0
    then after_insert c s (insert_once (s.links.prev s.tail) s.tail c s.links)
    else returns 0 s

pub remove_round : ℕ → IntrusiveList → Tried
unfolding remove_once
remove_round c s =
    if s.links.prev c == 0 || s.links.next c == 0
    then returns 0 s
    else after_remove c s (remove_once (s.links.prev c) (s.links.next c) c s.links)

pub pop_front_round : IntrusiveList → Tried
unfolding remove_once
pop_front_round s =
    let c = s.links.next s.header in
    if c == s.tail
    then returns 0 s
    else if s.links.next c == 0
    then retries s
    else after_remove c s (remove_once s.header (s.links.next c) c s.links)

pub pop_back_round : IntrusiveList → Tried
unfolding remove_once
pop_back_round s =
    let c = s.links.prev s.tail in
    if c == s.header
    then returns 0 s
    else if s.links.prev c == 0
    then retries s
    else after_remove c s (remove_once (s.links.prev c) s.tail c s.links)

-- The loops, on fuel: one unit is enough where no other thread interferes.
pub repeat : (IntrusiveList → Tried) → ℕ → IntrusiveList → Option (ℕ × IntrusiveList)
repeat round zero s = none
repeat round (suc fuel) s = elim (round s) [
  | returns c s' ↦ some (c, s')
  | retries s' ↦ repeat round fuel s'
  | stuck ↦ none
]

pub push_front : ℕ → ℕ → IntrusiveList → Option (ℕ × IntrusiveList)
unfolding push_front_round repeat
push_front fuel c s = if c == 0 then some (0, s) else repeat (push_front_round c) fuel s

pub push_back : ℕ → ℕ → IntrusiveList → Option (ℕ × IntrusiveList)
unfolding push_back_round repeat
push_back fuel c s = if c == 0 then some (0, s) else repeat (push_back_round c) fuel s

pub remove : ℕ → ℕ → IntrusiveList → Option (ℕ × IntrusiveList)
unfolding remove_round repeat
remove fuel c s = repeat (remove_round c) fuel s

pub pop_front : ℕ → IntrusiveList → Option (ℕ × IntrusiveList)
unfolding pop_front_round repeat
pop_front fuel s = repeat pop_front_round fuel s

pub pop_back : ℕ → IntrusiveList → Option (ℕ × IntrusiveList)
unfolding pop_back_round repeat
pop_back fuel s = repeat pop_back_round fuel s
