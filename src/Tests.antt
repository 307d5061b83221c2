-- ===== src/Tests.antt =====
-- Runs at concrete inputs, over a toy in place of the `snow` crate.
pub mod Toy
pub mod CryptoRuns
pub mod ServerRuns
pub mod ConfigRuns
pub mod ClientRuns
pub mod Host
pub mod RouteRuns
pub mod ControlRuns
pub mod BoundsRuns
pub mod KeyRuns
pub mod MainRuns
pub mod MonitorRuns
pub mod SetupRuns
pub mod TunnelRuns
pub mod StreamRuns
