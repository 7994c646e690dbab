-- ===== src/Qsrv.antt =====
-- internal/qsrv: the node's server side.
pub mod Pool
pub mod Link
pub mod Flows
pub mod Seats
pub mod Nat46
