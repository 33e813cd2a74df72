-- ===== src/Channel.antt =====
-- include/channel/channel.h and src/channel/channel.cpp: the sockets of a channel, one or a pool of them.
-- A call here runs alone: the system calls of `Socket::connect` and the random number are arguments.
pub mod MostIdle
pub mod Shares
pub mod Init
pub mod Tests
use sofa_bolt_cpp.Base.{
  ℕ, zero, suc, ◌+◌, ◌-◌, ◌%◌, ◌^◌, Bool, true, false, not, ◌&&◌, Option, none, some, List, [], ◌∷◌,
  if◌then◌else◌, ltb, ◌==◌, length, get_elem?, update,
}
use sofa_bolt_cpp.LifeCycleLock.{
  try_shared, release_shared, try_upgrade, try_upgrade_once, try_exclusive, release_exclusive,
}

-- `EConnectionType`
pub data ConnectionType : Type 0 where
  pooled short single : ConnectionType

-- `ERpcStatus`, as far as a channel sets it.
pub data ChannelStatus : Type 0 where
  channel_init channel_ok connect_fail : ChannelStatus

-- A socket as its channel sees it: whether it is active, and `_sharers`.
pub record ChannelSocket : Type 0 where
  pub is_alive : Bool
  pub sharers : ℕ

-- `Channel::tryConnect`, where `connected` is the result of `Socket::connect`: the socket is owned by
-- the channel, or there is none.
pub try_connect : Bool → Option ChannelSocket
try_connect connected =
    let owned = (try_exclusive (try_upgrade 0).1).1 in
    if connected then some (record { is_alive = true; sharers = owned }) else none

-- A channel with a socket of its own. `released` are the sockets whose ownership it surrendered.
pub record SingleChannel : Type 0 where
  pub lock : ℕ
  pub socket : Option ChannelSocket
  pub status : ChannelStatus
  pub released : List ChannelSocket

pub surrender : Option ChannelSocket → List ChannelSocket → List ChannelSocket
surrender none ss = ss
surrender (some s) ss = record s { sharers = release_exclusive s.sharers } ∷ ss

pub socket_active : Option ChannelSocket → Bool
socket_active none = false
socket_active (some s) = s.is_alive

-- The end of `getSocketInternal`, with the channel held.
pub reconnect : Bool → SingleChannel → Option ChannelSocket × SingleChannel
reconnect connected c =
    let s = try_connect connected in
    (
      s,
      record c {
        lock = release_exclusive c.lock;
        socket = s;
        status = if connected then c.status else connect_fail;
        released = surrender c.socket c.released;
      },
    )

-- `Channel::getSocketInternal`: the socket that the caller is given, if any. `exclusive` waits until no
-- other thread shares the channel, here with nobody else.
pub get_socket_internal : Bool → SingleChannel → Option ChannelSocket × SingleChannel
get_socket_internal connected c =
    let (shared, v) = try_shared c.lock in
    let (upgraded, w) = try_upgrade_once v in
    let (taken, x) = try_exclusive (release_shared w) in
    if not shared
    then (none, record c { lock = release_shared v })
    else if socket_active c.socket
    then (c.socket, record c { lock = release_shared v })
    else if not upgraded
    then (none, record c { lock = release_shared w })
    else reconnect connected (record c { lock = x })

-- `SubChannel`
pub record SubChannel : Type 0 where
  pub channel : SingleChannel
  pub shared_num : ℕ
  pub is_active : Bool

-- `std::numeric_limits<size_t>::max()`
abbrev pub no_minimum : ℕ
no_minimum = 2 ^ 64 - 1

-- Whether `sub_channel->idx` is the index.
pub is_own : Option ℕ → ℕ → Bool
is_own none i = false
is_own (some j) i = j == i

-- The loop that looks for the sub-channel that the fewest threads share, from the index `i` on, with
-- the best one so far.
pub most_idle : Option ℕ → ℕ → List SubChannel → ℕ → ℕ → ℕ × ℕ
most_idle own i [] best least = (best, least)
most_idle own i (c ∷ cs) best least =
    let passed = most_idle own (suc i) cs best least in
    let taken = most_idle own (suc i) cs i c.shared_num in
    if is_own own i
    then passed
    else if not c.is_active
    then passed
    else if ltb c.shared_num least
    then taken
    else passed

-- The index that is tried: a random one where no other sub-channel is active.
pub choose_sub_channel : ℕ → Option ℕ → List SubChannel → ℕ
choose_sub_channel random own cs =
    let (best, least) = most_idle own 0 cs 0 no_minimum in
    if least == no_minimum then random % length cs else best

-- The use of a sub-channel that the thread has counted itself in, with its `getSocketInternal`: where
-- it fails the thread counts itself out. `mark` is whether success is noted.
pub use_sub_channel : Bool → Bool → SubChannel → Option ChannelSocket × SubChannel
use_sub_channel mark connected c =
    let (s, channel) = get_socket_internal connected c.channel in used s channel
  where
    used : Option ChannelSocket → SingleChannel → Option ChannelSocket × SubChannel
    used (some s) channel =
        (some s, record c { channel = channel; is_active = if mark then true else c.is_active })
    used none channel =
        (none, record { channel = channel; is_active = false; shared_num = c.shared_num - 1 })

-- The pool, the index of the calling thread, and the socket it is given.
pub record Pool : Type 0 where
  pub sub_channels : List SubChannel
  pub idx : Option ℕ
  pub given : Option ChannelSocket

-- The thread uses the sub-channel `i`, which keeps `idx` where this succeeds and sets it otherwise.
pub use_at : Bool → Bool → ℕ → Option ℕ → Pool → Option SubChannel → Pool
use_at mark connected i otherwise p none = record p { idx = otherwise; given = none }
use_at mark connected i otherwise p (some c) =
    let (s, c') = use_sub_channel mark connected c in
    record {
      sub_channels = update i (λ d. c') p.sub_channels;
      idx = elim s [ none ↦ otherwise | some t ↦ some i ];
      given = s;
    }

-- The part of `getSubSocketInternal` after the thread's own sub-channel has failed. Nobody else changes
-- `shared_num`, so the `compare_exchange_strong` succeeds.
pub get_from_pool : ℕ → Bool → Pool → Pool
get_from_pool random connected p =
    let i = choose_sub_channel random p.idx p.sub_channels in
    let cs = update i (λ c. record c { shared_num = suc c.shared_num }) p.sub_channels in
    use_at true connected i none (record p { sub_channels = cs }) (get_elem? cs i)

-- The thread's own sub-channel, if it has one, and the pool where that gives no socket.
pub get_if_none : ℕ → Bool → Pool → Option ChannelSocket → Pool
get_if_none random connected p (some s) = p
get_if_none random connected p none = get_from_pool random connected p

pub get_from_own : ℕ → Bool → Bool → Pool → Option ℕ → Pool
get_from_own random first second p none = get_from_pool random second p
get_from_own random first second p (some i) =
    let p' = use_at false first i (some i) p (get_elem? p.sub_channels i) in
    get_if_none random second p' p'.given

-- `Channel::getSubSocketInternal`; `first` and `second` are the results of the calls of `connect`.
pub get_sub_socket_internal : ℕ → Bool → Bool → Pool → Pool
get_sub_socket_internal random first second p = get_from_own random first second p p.idx
