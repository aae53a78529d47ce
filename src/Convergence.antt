-- ===== src/Convergence.antt =====
-- The controller as a whole: the handlers of internal/ingress/controller/store, its listing, and
-- the synchronisation of internal/ingress/controller, from the ingresses that the informer has to
-- the hosts that the HTTP handler serves.
pub mod Hosts
pub mod History
pub mod Reflects
pub mod Accounting
pub mod Handing
pub mod Running
pub mod Quiescence
pub mod Chosen
pub mod Requests
mod Samples
mod Tests
