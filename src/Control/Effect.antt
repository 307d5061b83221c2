-- ===== src/Control/Effect.antt =====
-- The control socket and the data plane: what `off` does to the tasks of the server and of the client.
use soulvpn.Base.{
  ℕ, ◌≡◌, refl, Bool, false, List, [], SocketAddr, ◌==◌, length, Bool-cases, inl, inr,
}
use soulvpn.Crypto.Noise.{Noise}
use soulvpn.Stats.{Clock}
use soulvpn.Control.{Json, dispatch, exchange}
use soulvpn.Control.Laws.{CarriedRequest, CarriedResponse, op_of, exchange-toggle}
use soulvpn.Server.State.{Server}
use soulvpn.Server.Downlink.{on_data}
use soulvpn.Server.Uplink
use soulvpn.Client
use soulvpn.Client.{Client}

server_off :
    {n : Noise} (sv : Server n) (buf plain : List ℕ) (src : SocketAddr) (now : Clock) (done : Bool)
    → sv.stats.enabled ≡ false
    → ((on_data sv buf src now done).outputs ≡ [])
      × ((Uplink.on_tun sv plain now done).outputs ≡ [])
unfolding on_data Uplink.on_tun
server_off sv buf plain src now done off = (
  simp off refl,
  elim (Bool-cases (length plain == 0)) [
    | inl empty ↦ rw empty refl
    | inr full ↦ simp (full, off) refl
  ],
)

client_off :
    {n : Noise} (c : Client n) (wire plain : List ℕ) (now : Clock) (done : Bool)
    → c.stats.enabled ≡ false
    → ((Client.on_udp c wire now done).outputs ≡ [])
      × ((Client.on_tun c plain now done).outputs ≡ [])
unfolding Client.on_udp Client.on_tun
client_off c wire plain now done off = (
  simp off refl,
  elim (Bool-cases (length plain == 0)) [
    | inl empty ↦ rw empty refl
    | inr full ↦ simp (full, off) refl
  ],
)

-- After an `off` that was received, and until the data plane is turned on again, the server writes no
-- data packet to its TUN device and sends none from it, and neither does a client whose statistics
-- the request went to: whatever arrives, and whatever their sessions hold.
pub off-silent :
    {n : Noise} (json : Json) (pid : ℕ) (at : Clock) (sv : Server n) (c : Client n)
    (buf plain : List ℕ) (src : SocketAddr) (now : Clock) (done : Bool)
    → CarriedRequest json (op_of false)
    → CarriedResponse json (dispatch pid at sv.stats (record { op = op_of false })).response
    → CarriedResponse json (dispatch pid at c.stats (record { op = op_of false })).response
    → let sv' = record sv { stats = (exchange json pid at sv.stats (op_of false)).0 } in
      let c' = record c { stats = (exchange json pid at c.stats (op_of false)).0 } in
      ((on_data sv' buf src now done).outputs ≡ [])
      × ((Uplink.on_tun sv' plain now done).outputs ≡ [])
      × ((Client.on_udp c' buf now done).outputs ≡ [])
      × ((Client.on_tun c' plain now done).outputs ≡ [])
off-silent json pid at sv c buf plain src now done asked told told' =
    let off = (exchange-toggle json pid at sv.stats false asked told).0 in
    let off' = (exchange-toggle json pid at c.stats false asked told').0 in
    let one =
      server_off (record sv { stats = (exchange json pid at sv.stats (op_of false)).0 }) buf plain
        src now done off in
    let two =
      client_off (record c { stats = (exchange json pid at c.stats (op_of false)).0 }) buf plain now
        done off' in
    (one.0, one.1, two.0, two.1)
