-- ===== src/Ingress.antt =====
-- src/ingress.rs: the packet router and the ingress adapter.
pub mod Router
pub mod Inbound
