-- ===== src/Netstate/Tests.antt =====
-- internal/netstate: the theorems on a state with one node and one client.
use qd.Prelude.{◌↔◌, [], ◌∷◌, Bool, true, false, ◌==◌}
use qd.Prelude.Int.{pos}
use qd.Netstate.{Name, ingress, Group, Client, State, cfg_of, clients_reaching}
use qd.Netstate.Reach.{Among, Reaches, clients_reaching_iff}

abbrev home : Group
home = record {
  id = 4;
  allow_exit = true;
  allow_dev = false;
  allow_core = true;
  device_limit = pos 3;
  entrypoint_ids = 9 ∷ [];
}

abbrev anna : Client
anna = record {
  id = 1;
  uuid = 97 ∷ [];
  group_id = 4;
  enable = true;
  expiry_at = pos 0;
  device_limit = pos 0;
  allow_exit = pos 0;
}

abbrev net : State
net = record {
  nodes = record { id = 2; role = ingress; enable = true; uuid = 98 ∷ [] } ∷ [];
  entrypoints = record { id = 9; node_id = 2; enable = true } ∷ [];
  groups = home ∷ [];
  clients = anna ∷ [];
}

clients_reaching_iff_example :
    Among (cfg_of anna home) (clients_reaching (λ xs. xs) net 2)
    ↔ ((c : Client) × Reaches net 2 (cfg_of anna home) c)
clients_reaching_iff_example =
    clients_reaching_iff (λ xs. xs) (λ x xs. (λ h. h, λ h. h)) net 2 (cfg_of anna home)

-- Names of one letter, of which `a` is taken.
abbrev is_a : Name → Bool
is_a [] = false
is_a (x ∷ xs) = x == 97
