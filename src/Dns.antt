-- ===== src/Dns.antt =====
-- src/dns.rs and src/dns_cache.rs: admission, health and cache of the DNS forwarder. An `Instant`
-- and a `Duration` are nanoseconds; `saturating_duration_since` is the subtraction that stops at 0.
pub mod Health
pub mod Permits
pub mod Cache
