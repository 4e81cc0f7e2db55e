-- ===== src/Tests.antt =====
-- Concrete inputs for the theorems: a window of transitions, a publisher, a resolver with its
-- clients and its cache, a gateway.
pub mod Window
pub mod Control
pub mod Health
pub mod HostAgent
pub mod HostPolicy
pub mod Isolation
pub mod Permits
pub mod Cache
pub mod Natpmp
pub mod Enforcement
pub mod Profiles
pub mod Wireguard
