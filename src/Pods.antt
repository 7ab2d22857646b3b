-- ===== src/Pods.antt =====
-- The pods that nodes become: `Ensure` of SR Linux (api/v1beta1/srl.go), SR-SIM (api/v1beta1/srsim.go) and
-- general pods (api/v1beta1/generalpod.go). The names of the LAN package, the printers and the
-- splitter of shell commands are parameters.
pub mod Nets
pub mod Networks
pub mod Index
pub mod Srl
pub mod SrSim
pub mod General
pub mod Ensure
pub mod Safe
pub mod Cards
pub mod Shapes
pub mod Runnable
pub mod Gives
pub mod Nodes
