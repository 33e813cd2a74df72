-- ===== src/Channel/Init.antt =====
-- src/channel/channel.cpp: `Channel::init`, `getSocket` and the destructor.
use sofa_bolt_cpp.Base.{
  ℕ, zero, suc, Bool, true, false, Option, none, some, List, [], ◌∷◌, if◌then◌else◌, ◌==◌,
}
use sofa_bolt_cpp.Channel.{
  ConnectionType, pooled, short, single, ChannelStatus, channel_init, channel_ok, connect_fail,
  ChannelSocket, try_connect, SingleChannel, surrender, get_socket_internal, SubChannel, Pool,
  get_sub_socket_internal,
}

-- `ChannelOptions`, with the numbers of include/common/common_defines.h left to the caller. A pool size
-- below 0 is taken for 0, which `init` refuses as well.
pub record ChannelOptions : Type 0 where
  pub connect_timeout_ms : ℕ
  pub timeout_ms : ℕ
  pub max_retry : ℕ
  pub pool_size : ℕ
  pub connection_type : ConnectionType

-- `Channel`
pub record Channel : Type 0 where
  pub options : ChannelOptions
  pub status : ChannelStatus
  pub single_channel : SingleChannel
  pub sub_channels : List SubChannel

-- A channel with a lock just made, and the socket of its `tryConnect`.
pub new_single : Option ChannelSocket → SingleChannel
new_single s = record { lock = 0; socket = s; status = channel_init; released = [] }

pub new_sub_channel : ChannelSocket → SubChannel
new_sub_channel s = record { channel = new_single (some s); shared_num = 0; is_active = true }

-- The loop that connects `n` sub-channels from the index `k` on, of which the `connects` say how each
-- ends: all of them, or none where one fails.
pub connect_all : ℕ → ℕ → (ℕ → Bool) → Option (List SubChannel)
connect_all zero k connects = some []
connect_all (suc n) k connects =
    put_first (try_connect (connects k)) (connect_all n (suc k) connects)
  where
    put_first : Option ChannelSocket → Option (List SubChannel) → Option (List SubChannel)
    put_first (some s) (some cs) = some (new_sub_channel s ∷ cs)
    put_first other rest = none

pub status_of : Bool → ChannelStatus
status_of true = channel_ok
status_of false = connect_fail

pub has_socket : Option ChannelSocket → Bool
has_socket none = false
has_socket (some s) = true

-- `Channel::init`; a pool of no size returns before the status is set.
pub pool_channel : ChannelOptions → ChannelStatus → List SubChannel → Channel
pool_channel o st cs = record {
  options = o;
  status = st;
  single_channel = new_single none;
  sub_channels = cs;
}

pub init_pooled : (ℕ → Bool) → ChannelOptions → Bool × Channel
init_pooled connects o =
    if o.pool_size == 0
    then (false, pool_channel o channel_init [])
    else connected (connect_all o.pool_size 0 connects)
  where
    connected : Option (List SubChannel) → Bool × Channel
    connected none = (false, pool_channel o connect_fail [])
    connected (some cs) = (true, pool_channel o channel_ok cs)

pub init_single : Option ChannelSocket → Bool → ChannelOptions → Bool × Channel
init_single s ok o = (
  ok,
  record { options = o; status = status_of ok; single_channel = new_single s; sub_channels = [] },
)

pub init_channel : (ℕ → Bool) → ChannelOptions → Bool × Channel
init_channel connects o = init_as o.connection_type
  where
    init_as : ConnectionType → Bool × Channel
    init_as pooled = init_pooled connects o
    init_as short = init_single none true o
    init_as single = let s = try_connect (connects 0) in init_single s (has_socket s) o

-- `Channel::getSocket`, by a thread that keeps the sub-channel `idx`: the socket, the channel, and what
-- the thread keeps.
pub get_socket : ℕ → Bool → Bool → Option ℕ → Channel → Option ChannelSocket × Channel × Option ℕ
get_socket random first second idx c = get_as c.options.connection_type
  where
    get_as : ConnectionType → Option ChannelSocket × Channel × Option ℕ
    get_as pooled =
        let p : Pool = record { sub_channels = c.sub_channels; idx = idx; given = none } in
        let p' = get_sub_socket_internal random first second p in
        (p'.given, record c { sub_channels = p'.sub_channels }, p'.idx)
    get_as short = (try_connect first, c, idx)
    get_as single =
        let (s, one) = get_socket_internal first c.single_channel in
        (s, record c { single_channel = one }, idx)

-- `Channel::~Channel`: the ownership of a single socket is surrendered.
pub close_channel : Channel → List ChannelSocket
close_channel c = close_as c.options.connection_type
  where
    close_as : ConnectionType → List ChannelSocket
    close_as pooled = []
    close_as other = surrender c.single_channel.socket c.single_channel.released
