-- ===== src/Channel/Tests.antt =====
-- src/channel/channel.cpp with a pool of two sub-channels.
use sofa_bolt_cpp.Base.{refl, inr, true, false, some, none, [], ◌∷◌, arith}
use sofa_bolt_cpp.Channel.{
  SingleChannel, Pool, channel_ok, most_idle, no_minimum, get_sub_socket_internal,
}
use sofa_bolt_cpp.Channel.MostIdle.{Chosen, most_idle-Chosen}
use sofa_bolt_cpp.Channel.Shares.{IsCounted, Shares, get_sub_socket_internal-Shares}

abbrev channel : SingleChannel
channel = record {
  lock = 0;
  socket = some (record { is_alive = true; sharers = 1 });
  status = channel_ok;
  released = [];
}

-- The first one has lost its socket.
abbrev pool : Pool
pool = record {
  sub_channels =
      record { channel = record channel { socket = none }; shared_num = 2; is_active = true }
      ∷ record { channel = channel; shared_num = 1; is_active = true }
      ∷ [];
  idx = some 0;
  given = none;
}

most_idle-Chosen_example :
    let (j, n) = most_idle (some 0) 0 pool.sub_channels 0 no_minimum in
    Chosen (some 0) 0 pool.sub_channels 0 no_minimum j n
most_idle-Chosen_example = most_idle-Chosen (some 0) 0 pool.sub_channels 0 no_minimum

get_sub_socket_internal-Shares_example :
    Shares pool (some 0) (get_sub_socket_internal 7 false false pool)
unfolding IsCounted
get_sub_socket_internal-Shares_example =
    get_sub_socket_internal-Shares 7 false false pool (omega arith)
      (inr (0, _, refl, refl, omega arith))
