-- ===== src/Tests/BoundsRuns.antt =====
-- Runs on the bounds of the tables and of the machine words.
use soulvpn.Base.{ℕ, ◌≡◌, refl, false, none, some, [], ◌∷◌, arith, contains_key, v4, nat_eq}
use soulvpn.Crypto.Replay.{default}
use soulvpn.Server.RateLimit.{rate_new}
use soulvpn.Server.State.{State, LiveSession, alloc_index}
use soulvpn.Server.State.Alloc.{alloc_index-total}
use soulvpn.Tests.Toy.{toy}

abbrev live : ℕ → LiveSession toy
live i = record {
  session = record {
    index = i;
    transport = record { sending = 0; receiving = 0; remote = none };
    send_nonce = 0;
    replay = default;
  };
  peer_addr = record { ip = v4 3405803777; port = 40000 };
  tunnel_ip = i;
  last_seen = 0;
  established = 0;
}

abbrev two_sessions : State toy
unfolding rate_new
two_sessions = record {
  by_index = (7, live 7) ∷ (8, live 8) ∷ [];
  by_ip = (7, 7) ∷ (8, 8) ∷ [];
  peers = [];
  rate = rate_new 10 60;
}

alloc_index-total_example :
    (idx : ℕ) × (alloc_index two_sessions (8 ∷ 7 ∷ 9 ∷ []) ≡ some idx)
    × (contains_key idx two_sessions.by_index ≡ false)
unfolding two_sessions
alloc_index-total_example = alloc_index-total two_sessions (8 ∷ 7 ∷ 9 ∷ []) refl (omega arith)
