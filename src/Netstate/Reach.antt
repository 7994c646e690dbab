-- ===== src/Netstate/Reach.antt =====
-- internal/netstate/project.go: which clients a node's configuration admits.
use mathlib.Core.Path.{subst}
use qd.Prelude.{
  ℕ, ◌≡◌, ◌↔◌, ◌⊎◌, inl, inr, refl, sym, ap, ◌∙◌, ◌&&◌, ◌||◌, true, false, not, none, some, List,
  [], ◌∷◌, ◌==◌, arith, Bool-cases, Option-cases, some_same, none_some,
}
use qd.Netstate.{
  State, Client, Group, Entrypoint, CfgClient, group_in, is_local, any_local, cfg_of, is_empty,
  admitted, admit_all, clients_reaching,
}

abbrev pub Among : {A : Type 0} → A → List A → Type 0
Among x [] = ⊥
Among x (y ∷ ys) = (x ≡ y) ⊎ Among x ys

-- The client is enabled, has a UUID, and its group leads to an enabled entry point of the node.
pub record Reaches (s : State) (node : ℕ) (x : CfgClient) (c : Client) : Type 0 where
  pub known : Among c s.clients
  pub enabled : c.enable ≡ true
  pub named : is_empty c.uuid ≡ false
  pub group : Group
  pub grouped : group_in s.groups c.group_id ≡ some group
  pub entry : Entrypoint
  pub listed : Among entry s.entrypoints
  pub led : Among entry.id group.entrypoint_ids
  pub here : entry.node_id ≡ node
  pub opened : entry.enable ≡ true
  pub shown : x ≡ cfg_of c group

local_entry :
    (es : List Entrypoint) (node i : ℕ)
    → is_local es node i ≡ true
    → (e : Entrypoint) × Among e es × (e.node_id ≡ node) × (e.enable ≡ true) × (e.id ≡ i)
unfolding is_local
local_entry [] node i h = ground arith
local_entry (e ∷ es) node i h = elim (Bool-cases ((e.node_id == node && e.enable) && e.id == i)) [
  | inl here ↦ (e, inl refl, ground arith, ground arith, ground arith)
  | inr away ↦
      let rest : is_local es node i ≡ true = ground arith in
      let (f, among, p, q, r) = local_entry es node i rest in (f, inr among, p, q, r)
]

entry_local :
    (es : List Entrypoint) (e : Entrypoint) (node : ℕ)
    → Among e es
    → e.node_id ≡ node
    → e.enable ≡ true
    → is_local es node e.id ≡ true
unfolding is_local
entry_local [] e node h p q = elim h [ ]
entry_local (f ∷ es) e node (inl same) p q = rw (← same) (ground arith)
entry_local (f ∷ es) e node (inr h) p q =
    let rest = entry_local es e node h p q in rw rest (ground arith)

any_entry :
    (es : List Entrypoint) (node : ℕ) (ids : List ℕ)
    → any_local es node ids ≡ true
    → (e : Entrypoint) × Among e es × Among e.id ids × (e.node_id ≡ node) × (e.enable ≡ true)
unfolding any_local
any_entry es node [] h = ground arith
any_entry es node (i ∷ ids) h = elim (Bool-cases (is_local es node i)) [
  | inl here ↦ let (e, among, p, q, r) = local_entry es node i here in (e, among, inl r, p, q)
  | inr away ↦
      let rest : any_local es node ids ≡ true = ground arith in
      let (e, among, led, p, q) = any_entry es node ids rest in (e, among, inr led, p, q)
]

entry_any :
    (es : List Entrypoint) (e : Entrypoint) (node : ℕ) (ids : List ℕ)
    → Among e es
    → Among e.id ids
    → e.node_id ≡ node
    → e.enable ≡ true
    → any_local es node ids ≡ true
unfolding any_local
entry_any es e node [] among led p q = elim led [ ]
entry_any es e node (i ∷ ids) among (inl same) p q =
    let here = entry_local es e node among p q in rw (← same) (rw here refl)
entry_any es e node (i ∷ ids) among (inr led) p q =
    let rest = entry_any es e node ids among led p q in rw rest (ground arith)

admitted_entry :
    (s : State) (node : ℕ) (x : CfgClient) (c : Client)
    → Among c s.clients
    → admitted s node c ≡ some x
    → Reaches s node x c
unfolding admitted
admitted_entry s node x c known e = elim (Bool-cases (not c.enable || is_empty c.uuid)) [
  | inl off ↦ none_some (rw (off, admitted) refl) e
  | inr on ↦ elim (Option-cases (group_in s.groups c.group_id)) [
    | inl lost ↦ none_some (rw (on, admitted) (rw lost refl)) e
    | inr (g, grouped) ↦ elim (Bool-cases (any_local s.entrypoints node g.entrypoint_ids)) [
      | inl led ↦
          let (f, among, leads, p, q) = any_entry s.entrypoints node g.entrypoint_ids led in
          let made : admitted s node c ≡ some (cfg_of c g) =
            rw (on, admitted) (rw grouped (rw led refl)) in
          record {
            known = known;
            enabled = ground arith;
            named = ground arith;
            group = g;
            grouped = grouped;
            entry = f;
            listed = among;
            led = leads;
            here = p;
            opened = q;
            shown = some_same _ _ (sym e ∙ made);
          }
      | inr away ↦ none_some (rw (on, admitted) (rw grouped (rw away refl))) e
    ]
  ]
]

entry_admitted :
    (s : State) (node : ℕ) (x : CfgClient) (c : Client)
    → Reaches s node x c
    → admitted s node c ≡ some x
unfolding admitted
entry_admitted s node x c r =
    let led =
      entry_any s.entrypoints r.entry node r.group.entrypoint_ids r.listed r.led r.here r.opened in
    let on : (not c.enable || is_empty c.uuid) ≡ false = rw r.enabled r.named in
    rw (on, admitted) (rw r.grouped (rw led (ap (λ (y : CfgClient). some y) (sym r.shown))))

admit_none :
    (s : State) (node : ℕ) (c : Client) (cs : List Client)
    → admitted s node c ≡ none
    → admit_all s node (c ∷ cs) ≡ admit_all s node cs
unfolding admit_all
admit_none s node c cs e = rw (e, admit_all) refl

admit_some :
    (s : State) (node : ℕ) (y : CfgClient) (c : Client) (cs : List Client)
    → admitted s node c ≡ some y
    → admit_all s node (c ∷ cs) ≡ (y ∷ admit_all s node cs)
unfolding admit_all
admit_some s node y c cs e = rw (e, admit_all) refl

first_or_later :
    (s : State) (node : ℕ) (x y : CfgClient) (c : Client) (cs : List Client)
    → admitted s node c ≡ some y
    → (Among x (admit_all s node cs) → (d : Client) × Among d cs × (admitted s node d ≡ some x))
    → (x ≡ y) ⊎ Among x (admit_all s node cs)
    → (d : Client) × Among d (c ∷ cs) × (admitted s node d ≡ some x)
first_or_later s node x y c cs e later (inl same) =
    (c, inl refl, e ∙ ap (λ (z : CfgClient). some z) (sym same))
first_or_later s node x y c cs e later (inr h) = let (d, among, f) = later h in (d, inr among, f)

all_admitted :
    (s : State) (node : ℕ) (x : CfgClient) (cs : List Client)
    → Among x (admit_all s node cs)
    → (c : Client) × Among c cs × (admitted s node c ≡ some x)
unfolding admit_all
all_admitted s node x [] h = elim h [ ]
all_admitted s node x (c ∷ cs) h = elim (Option-cases (admitted s node c)) [
  | inl e ↦
      let (d, among, f) =
        all_admitted s node x cs
          (subst (λ (l : List CfgClient). Among x l) (admit_none s node c cs e) h) in
      (d, inr among, f)
  | inr (y, e) ↦
      first_or_later s node x y c cs e (all_admitted s node x cs)
        (subst (λ (l : List CfgClient). Among x l) (admit_some s node y c cs e) h)
]

admitted_all :
    (s : State) (node : ℕ) (x : CfgClient) (c : Client) (cs : List Client)
    → Among c cs
    → admitted s node c ≡ some x
    → Among x (admit_all s node cs)
unfolding admit_all
admitted_all s node x c [] h e = elim h [ ]
admitted_all s node x c (d ∷ cs) (inl same) e =
    rw (admit_some s node x d cs (ap (admitted s node) (sym same) ∙ e)) (inl refl)
admitted_all s node x c (d ∷ cs) (inr h) e = elim (Option-cases (admitted s node d)) [
  | inl f ↦ rw (admit_none s node d cs f) (admitted_all s node x c cs h e)
  | inr (y, f) ↦ rw (admit_some s node y d cs f) (inr (admitted_all s node x c cs h e))
]

-- For a sort that keeps what a list has, a client stands in the configuration of a node exactly
-- if it is the shown form of an enabled client with a UUID whose group lists an enabled entry
-- point of that node.
pub clients_reaching_iff :
    (sort : List CfgClient → List CfgClient)
    → ((x : CfgClient) (xs : List CfgClient) → Among x (sort xs) ↔ Among x xs)
    → (s : State) (node : ℕ) (x : CfgClient)
    → Among x (clients_reaching sort s node) ↔ ((c : Client) × Reaches s node x c)
unfolding clients_reaching
clients_reaching_iff sort sorts s node x = (
  λ h.
      let (c, among, e) =
        all_admitted s node x s.clients ((sorts x (admit_all s node s.clients)).0 h) in
      (c, admitted_entry s node x c among e),
  λ h.
      (sorts x (admit_all s node s.clients)).1
        (admitted_all s node x h.0 s.clients h.1.known (entry_admitted s node x h.0 h.1)),
)
