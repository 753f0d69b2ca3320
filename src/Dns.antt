-- ===== src/Dns.antt =====
-- certmon/dns: the DNS providers.
pub mod Manual
