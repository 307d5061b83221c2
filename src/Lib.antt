-- ===== src/Lib.antt =====
-- soulvpn: a VPN over UDP with the Noise IK handshake. A server keeps a session for each configured
-- peer, and carries IPv4 packets between a TUN device and one socket; its client does the same for one
-- session. The library models the program's core and proves what it promises.
--
-- The parts and their files:
-- - Packet: src/packet.rs, the readers of IPv4 headers, `is_ipv4`, `ipv4_src`, `ipv4_dst`.
-- - Crypto: src/crypto.rs. Crypto/Replay is `ReplayWindow`, a bitmap of 1024 nonces in 16 words, with the
--   in-place loops of `shift_left`; Crypto/Session is `Session`, the framing, sealing and opening of data
--   packets; Crypto/Handshake is `HandshakeInitiator` and `HandshakeResponder`. The `snow` crate is the
--   parameter Crypto/Noise: the calls that the program makes of it, and what its documentation promises of
--   a pair of transport states. Tests/Toy is an instance of it.
-- - Stats: src/stats.rs, the counters of `RuntimeStats` and the snapshot for the control socket; Stats/Format
--   is `format_bytes` and `format_duration`.
-- - Server: src/server.rs. Server/RateLimit is `RateLimit`; Server/State is `State` with `LiveSession` and
--   `PeerMeta`; Server/Handshake is `handle_handshake`; Server/Downlink, Server/Uplink and Server/Reaper
--   are one round of the three tasks that `run` starts; Server/Invariant says when the tables are well
--   formed; Server/Run has the tables at the start and the runs of all tasks together, and Server/Run/Sessions
--   and Server/Run/Identity whose the sessions are, for a Noise that keeps the key of the other side
--   (`KeepsRemote`); Server/Settings and
--   Server/Setup are `run` up to its tasks and after them.
-- - Config: src/config.rs, `ServerConfig::load` and `ClientConfig::load` with the checks and parsers that
--   they call; Config/Toml is the configurations and the defaults of the keys that a file leaves out;
--   Config/Chars is what they use of `str`, Config/Show what `format!` does with numbers and
--   addresses, and Config/KeyFiles is `write_keypair_files`. The file system, `toml` and `base64` are the
--   parameters `Env` and `KeyStore`.
-- - Client: src/client.rs, one round of its three tasks, and `handshake` with its ten attempts; Client/Gate
--   is how the downlink and a handshake share the receive gate; Client/Settings and Client/Setup are `run`
--   before and after the tasks.
-- - Control: src/control.rs, the messages, their frames, and one request with its answer; Control/Serve is
--   `serve`, over the parameter `Sockets`, with the tasks that it starts, and Control/Ask is `request`; Control/Effect is what `off` does
--   to the tasks of both sides. `serde_json` is the parameter `Json`.
-- - Route: src/route.rs. Route/Os is `run`, `run_status` and `default_route`, over the parameter `Os`, the
--   commands and the files of the host; Route/Dns, Route/Nat, Route/KillSwitch and Route/Ipv6 are the four
--   guards, each with its drop; Route/Client is `ClientRoutes` and the hook of src/client.rs that calls it.
--   What is relied on of `ip`, `iptables` and files are the records FileLaws, FilterLaws, NatLaws and
--   RouteLaws, in which every call may fail. TidyHost is a host on which a deletion of what is there
--   succeeds, since the program ignores its failure. Tests/Host is a host that fulfils them.
-- - Tunnel: a client and a server together. A datagram that one end puts out is what the other takes in;
--   Tunnel/Alive is the client's keepalive and the server's reaper.
-- - TunDev: src/tun_dev.rs `prefix_to_netmask`, and `ipv4_network` of src/server.rs. Devices is `create`, and
--   the parameter of that name is what opens sockets and the device.
-- - Main: src/main.rs, the commands `genkey`, `pubkey`, `on` and `off`, over the parameter `Program`.
-- - Monitor: src/monitor.rs, `run` and `ui_loop`, over the parameter `Screen`.
-- - Base: what the modules share, lists over native numbers, results, bytes, maps and addresses.
--   Tests: runs at concrete inputs.
--
-- How the code is read. A function on `&mut self` takes the old state and returns the new one beside its
-- result, on the error paths too. Machine integers are natural numbers, with the wrap-around of 64-bit
-- counters and shifts written out as `% 2 ^ 64`; `-` stops at 0, and stands where the code has checked the
-- order before, or where `duration_since` saturates. Bytes are numbers; an output buffer is its length.
-- `anyhow::Error` is a value, without the texts that a format adds. A hash map is an association list
-- with one entry for each key. Logging is left out. The clock and the random numbers are arguments.
-- A round of a task takes the server's lock for what it does to the tables, and is one step; a handshake
-- takes it three times, and only one task handles handshakes. The client's tasks are read alike; in
-- Client/Gate the downlink and a handshake are interleaved in any order. The ten attempts are a recursion
-- on those left. A value whose drop does something is dropped by a call where the code drops it, on the
-- paths of `?` too. A command is the list of its words; a call that works on the host gives the host after
-- it, whether or not it fails.
--
-- Loops are recursions on lists, or on the number of words left. The two loops that draw random indices
-- until one fits take the list of draws, and return `none` when it is used up, which stands for a loop
-- that still runs. The loop of the monitor takes the number of turns, and returns `none` while it runs. The
-- loop of `serve` is a recursion on what comes to the socket. The digits of a u64 are at most 20, and an
-- octet and a prefix length have at most 3.
--
-- Not modelled: the operating system's side (sockets, TUN device, signals); how the tasks of connections to
-- the control socket and the threads of the hook interleave, which are taken in the order of the lock and
-- before the routes are dropped; of src/main.rs the arguments, the logging and `status`; of src/monitor.rs the drawing and
-- the rates, which are only drawn; of src/stats.rs `format_human` and `format_rate`, which need the text of an
-- IPv6 address and measured doubles.
pub mod Base
pub mod Packet
pub mod Crypto
pub mod Stats
pub mod Config
pub mod Server
pub mod Client
pub mod Route
pub mod Control
pub mod Tunnel
pub mod TunDev
pub mod Devices
pub mod Main
pub mod Monitor
pub mod Tests
