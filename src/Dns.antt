-- ===== src/Dns.antt =====
-- internal/dns: names, records and zone files.
pub mod Domain
pub mod Record
pub mod RecordSet
pub mod Render
mod Tests
