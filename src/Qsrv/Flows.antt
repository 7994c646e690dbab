-- ===== src/Qsrv/Flows.antt =====
-- internal/qsrv/node.go: the route of a session, the marks on its flows, and the connections that it
-- holds open for each flow. A connection is a number; a method that closes some returns them.
pub mod Marks
mod Tests
use qd.Prelude.{
  ℕ, suc, ◌+◌, ◌^◌, ◌&&◌, Bool, true, false, not, Option, none, some, is_some, List, [], ◌∷◌, ◌++◌,
  ◌==◌, leb, if◌then◌else◌, length, is_yes, ℕ_discrete,
}
use qd.Prelude.Dict.{find, put, remove}
use qd.Netip.{Addr, unmap}
use qd.Ippkt.{Bytes, Ends, flow}

-- flowAt: the source and the destination, each an address with a port.
abbrev pub FlowAt : Type 0
FlowAt = (Addr × ℕ) × (Addr × ℕ)

unfoldable pub FlowAt-discrete : Discrete FlowAt
FlowAt-discrete = hlevel ℕ_discrete

unfoldable pub flow_of : Addr × ℕ → Addr × ℕ → FlowAt
flow_of src dst = ((unmap src.0, src.1), (unmap dst.0, dst.1))

-- The fields of `live` that the methods below read and write.
pub record Flows : Type 0 where
  pub route : List ℕ
  pub marked : Bool
  pub heads : List (FlowAt × ℕ)
  pub held : List (FlowAt × List ℕ)

abbrev pub mark_egress : ℕ
mark_egress = 1

abbrev pub heads_cap : ℕ
heads_cap = 2 ^ 14

unfoldable pub held_at : Flows → FlowAt → List ℕ
held_at s at = elim (find FlowAt-discrete at s.held) [ none ↦ [] | some shuts ↦ shuts ]

unfoldable pub closers : List (FlowAt × List ℕ) → List ℕ
closers [] = []
closers ((at, shuts) ∷ rest) = shuts ++ closers rest

-- shutFlows: every connection is closed.
unfoldable pub shut_flows : Flows → Flows × List ℕ
unfolding closers
shut_flows s = (record s { held = [] }, closers s.held)

unfoldable pub same_route : List ℕ → List ℕ → Bool
same_route [] [] = true
same_route (x ∷ xs) (y ∷ ys) = x == y && same_route xs ys
same_route _ _ = false

-- steer: whether the route turned, and what was closed.
unfoldable pub steer : Flows → List ℕ → Flows × Bool × List ℕ
unfolding same_route shut_flows
steer s route =
    let turned = record s { route = route } in
    if same_route s.route route
    then (s, false, [])
    else if s.marked
    then (turned, true, [])
    else ((shut_flows turned).0, true, (shut_flows turned).1)

-- A mark for a flow whose mark was another one, or none. The table of marks starts anew once it is
-- full; the connections of a flow that had a mark are closed.
unfoldable pub mark_anew : Flows → FlowAt → Option ℕ → ℕ → Flows × List ℕ
unfolding held_at
mark_anew s at was mark =
    let room = if leb heads_cap (length s.heads) then [] else s.heads in
    let noted = record s { heads = put FlowAt-discrete at mark room } in
    if is_some was
    then (record noted { held = remove FlowAt-discrete at s.held }, held_at s at)
    else (noted, [])

unfoldable pub mark_flow : Flows → FlowAt → ℕ → Flows × List ℕ
unfolding mark_anew
mark_flow s at mark = elim (find FlowAt-discrete at s.heads) [
  | none ↦ mark_anew s at none mark
  | some was ↦ if was == mark then (s, []) else mark_anew s at (some was) mark
]

unfoldable pub note_mark : Flows → Bytes → ℕ → Flows × List ℕ
unfolding mark_flow
note_mark s pkt mark = elim (flow pkt) [
  | none ↦ (s, [])
  | some e ↦ mark_flow s (flow_of (e.src, e.src_port) (e.dst, e.dst_port)) mark
]

-- A flow with no mark has the mark 0.
unfoldable pub leaves : Flows → Addr × ℕ → Addr × ℕ → Bool
leaves s src dst = elim (find FlowAt-discrete (flow_of src dst) s.heads) [
  | none ↦ false
  | some mark ↦ mark == mark_egress
]

unfoldable pub hold_flow : Flows → Addr × ℕ → Addr × ℕ → ℕ → Flows
unfolding held_at
hold_flow s src dst shut =
    let at = flow_of src dst in
    record s { held = put FlowAt-discrete at (held_at s at ++ (shut ∷ [])) s.held }

-- The first connection of that number leaves the list; `none` if it is not there.
unfoldable pub delete_first : ℕ → List ℕ → Option (List ℕ)
delete_first shut [] = none
delete_first shut (x ∷ xs) =
    let rest : Option (List ℕ) = elim (delete_first shut xs) [
      | none ↦ none
      | some ys ↦ some (x ∷ ys)
    ] in
    if x == shut then some xs else rest

-- What the function that holdFlow returns does.
unfoldable pub let_go : Flows → FlowAt → ℕ → Flows
unfolding held_at delete_first
let_go s at shut = elim (delete_first shut (held_at s at)) [
  | none ↦ s
  | some [] ↦ record s { held = remove FlowAt-discrete at s.held }
  | some (x ∷ xs) ↦ record s { held = put FlowAt-discrete at (x ∷ xs) s.held }
]
