-- ===== src/Coredns.antt =====
-- internal/coredns: the ConfigMap, the Deployment and the Corefile of CoreDNS.
pub mod ConfigMap
pub mod Deployment
pub mod Templates
pub mod Corefile
mod Tests
