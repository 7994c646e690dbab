-- ===== src/Qcli.antt =====
-- internal/qcli: the client's side of the tunnel.
pub mod Nat
