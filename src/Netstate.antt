-- ===== src/Netstate.antt =====
-- internal/netstate (state.go, config.go, project.go, names.go): what the panel's state says to each
-- node. A string is the list of its bytes. Sorting (`sort.Slice`) and
-- the hash of a string (FNV-1a of hash/fnv) are parameters.
pub mod Reach
pub mod Names
mod Tests
use qd.Prelude.{
  ℕ, suc, ◌%◌, ◌^◌, ◌&&◌, ◌||◌, Bool, true, false, not, Option, none, some, is_some, List, [], ◌∷◌,
  ◌==◌, if◌then◌else◌, is_yes, length, get_or, ℕ_discrete,
}
use qd.Prelude.Int.{ℤ, pos, negsuc}

abbrev pub Name : Type 0
Name = List ℕ

unfoldable pub Name-discrete : Discrete Name
Name-discrete = hlevel ℕ_discrete

pub data Role : Type 0 where
  ingress egress : Role
  other : Name → Role

unfoldable pub Role-discrete : Discrete Role
Role-discrete = hlevel ℕ_discrete

-- Fields that no function here reads (tags, addresses, keys) are left out.
pub record Node : Type 0 where
  pub id : ℕ
  pub role : Role
  pub enable : Bool
  pub uuid : Name

pub record Entrypoint : Type 0 where
  pub id : ℕ
  pub node_id : ℕ
  pub enable : Bool

pub record Group : Type 0 where
  pub id : ℕ
  pub allow_exit : Bool
  pub allow_dev : Bool
  pub allow_core : Bool
  pub device_limit : ℤ
  pub entrypoint_ids : List ℕ

pub record Client : Type 0 where
  pub id : ℕ
  pub uuid : Name
  pub group_id : ℕ
  pub enable : Bool
  pub expiry_at : ℤ
  pub device_limit : ℤ
  pub allow_exit : ℤ

pub record State : Type 0 where
  pub nodes : List Node
  pub entrypoints : List Entrypoint
  pub groups : List Group
  pub clients : List Client

pub record CfgClient : Type 0 where
  pub id : ℕ
  pub uuid : Name
  pub expiry_at : ℤ
  pub device_limit : ℤ
  pub allow_exit : Bool
  pub allow_dev : Bool
  pub allow_core : Bool

pub record CfgPeer : Type 0 where
  pub node_id : ℕ
  pub role : Role
  pub session : ℕ

pub record NodeConfig : Type 0 where
  pub clients : List CfgClient
  pub peers : List CfgPeer

-- ErrNoSuchNode, ErrNodeOff and ErrUnknownRole.
pub data Projected : Type 0 where
  no_such_node node_off unknown_role : Projected
  config : NodeConfig → Projected

-- ExitAllow is 1 and ExitDeny 2; any other number inherits from the group.
unfoldable pub may_exit : Client → Option Group → Bool
may_exit c g =
    let inherited : Bool = elim g [ none ↦ false | some h ↦ h.allow_exit ] in
    elim c.allow_exit [
      | pos n ↦ if n == 1 then true else if n == 2 then false else inherited
      | negsuc n ↦ inherited
    ]

unfoldable pub node_in : List Node → ℕ → Option Node
node_in [] i = none
node_in (n ∷ rest) i = let later = node_in rest i in if n.id == i then some n else later

unfoldable pub group_in : List Group → ℕ → Option Group
group_in [] i = none
group_in (g ∷ rest) i = let later = group_in rest i in if g.id == i then some g else later

-- `local[id]`: some enabled entry point of the node has the number.
unfoldable pub is_local : List Entrypoint → ℕ → ℕ → Bool
is_local [] node i = false
is_local (e ∷ rest) node i = ((e.node_id == node && e.enable) && e.id == i) || is_local rest node i

unfoldable pub any_local : List Entrypoint → ℕ → List ℕ → Bool
any_local es node [] = false
any_local es node (i ∷ rest) = is_local es node i || any_local es node rest

-- `limit <= 0` takes the group's limit.
unfoldable pub limit_of : ℤ → ℤ → ℤ
limit_of (pos n) inherited = if n == 0 then inherited else pos n
limit_of (negsuc n) inherited = inherited

unfoldable pub cfg_of : Client → Group → CfgClient
cfg_of c g = record {
  id = c.id;
  uuid = c.uuid;
  expiry_at = c.expiry_at;
  device_limit = limit_of c.device_limit g.device_limit;
  allow_exit = may_exit c (some g);
  allow_dev = g.allow_dev;
  allow_core = g.allow_core;
}

unfoldable pub is_empty : Name → Bool
is_empty [] = true
is_empty (x ∷ xs) = false

-- One turn of the loop on the clients.
unfoldable pub admitted : State → ℕ → Client → Option CfgClient
admitted s node c =
    let in_group : Option CfgClient = elim (group_in s.groups c.group_id) [
      | none ↦ none
      | some g ↦ if any_local s.entrypoints node g.entrypoint_ids then some (cfg_of c g) else none
    ] in
    if not c.enable || is_empty c.uuid then none else in_group

unfoldable pub admit_all : State → ℕ → List Client → List CfgClient
admit_all s node [] = []
admit_all s node (c ∷ rest) = elim (admitted s node c) [
  | none ↦ admit_all s node rest
  | some x ↦ x ∷ admit_all s node rest
]

unfoldable pub clients_reaching : (List CfgClient → List CfgClient) → State → ℕ → List CfgClient
clients_reaching sort s node = sort (admit_all s node s.clients)

-- qdcrypt.SessionID: a hash of 0 counts as 1.
unfoldable pub session_id : (Name → ℕ) → Name → ℕ
session_id hash key = if hash key == 0 then 1 else hash key

unfoldable pub peer_of : (Name → ℕ) → Node → CfgPeer
peer_of hash n = record {
  node_id = n.id;
  role = n.role;
  session = if is_empty n.uuid then 0 else session_id hash n.uuid;
}

unfoldable pub peers_in : (Name → ℕ) → Role → List Node → List CfgPeer
peers_in hash role [] = []
peers_in hash role (n ∷ rest) =
    let more = peers_in hash role rest in
    if not (is_yes (Role-discrete n.role role)) || not n.enable then more else peer_of hash n ∷ more

unfoldable pub peers_for : (List CfgPeer → List CfgPeer) → (Name → ℕ) → State → Role → List CfgPeer
peers_for sort hash s role = sort (peers_in hash role s.nodes)

unfoldable pub project_node :
    (List CfgClient → List CfgClient)
    → (List CfgPeer → List CfgPeer)
    → (Name → ℕ)
    → State
    → Node
    → Role
    → Projected
project_node sort_clients sort_peers hash s n ingress = config (record {
  clients = clients_reaching sort_clients s n.id;
  peers = peers_for sort_peers hash s egress;
})
project_node sort_clients sort_peers hash s n egress =
    config (record { clients = []; peers = peers_for sort_peers hash s ingress })
project_node sort_clients sort_peers hash s n (other r) = unknown_role

unfoldable pub project :
    (List CfgClient → List CfgClient)
    → (List CfgPeer → List CfgPeer)
    → (Name → ℕ)
    → State
    → ℕ
    → Projected
project sort_clients sort_peers hash s i = elim (node_in s.nodes i) [
  | none ↦ no_such_node
  | some n ↦ if not n.enable then node_off else project_node sort_clients sort_peers hash s n n.role
]

-- The names of a pool that are not taken.
unfoldable pub free_names : (Name → Bool) → List Name → List Name
free_names taken [] = []
free_names taken (x ∷ rest) = let more = free_names taken rest in if taken x then more else x ∷ more

-- NameFor, of the role's pool; the empty name if every name is taken.
unfoldable pub name_for : (Name → ℕ) → List Name → (Name → Bool) → Name → Name
name_for hash names taken seed =
    let free = free_names taken names in
    if length free == 0 then [] else get_or free (hash seed % (length free % 2 ^ 32)) []
