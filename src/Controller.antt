-- ===== src/Controller.antt =====
-- internal/ingress/controller: from the objects in the store to the served configuration.
pub mod Endpoints
pub mod Services
pub mod Routing
pub mod Sync
