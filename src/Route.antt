-- ===== src/Route.antt =====
-- src/route.rs: what the program changes of the host's network, and how it undoes it.
pub mod Os
pub mod Dns
pub mod Nat
pub mod KillSwitch
pub mod Ipv6
pub mod Client
