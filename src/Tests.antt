-- ===== src/Tests.antt =====
-- Runs on concrete inputs, and the theorems at inputs where their hypotheses hold.
pub mod Labs
pub mod Values
pub mod Clusters
pub mod Configs
pub mod Machines
pub mod Addresses
pub mod Pods
pub mod Reconciler
