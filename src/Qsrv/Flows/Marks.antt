-- ===== src/Qsrv/Flows/Marks.antt =====
-- internal/qsrv/node.go: what a mark on a packet does to its flow and to the other flows.
use qd.Prelude.{
  ℕ, ◌≤◌, ◌≡◌, ◌≢◌, ◌⊎◌, refl, ap, ◌∙◌, inl, inr, none, some, List, [], ◌==◌, ==_iff, leb,
  if◌then◌else◌, length, arith, Bool-cases, Option-cases, known_twice,
}
use qd.Prelude.Dict.{find, put, find-put_self, find-remove_self, find-remove_ne, length-put-le}
use qd.Ippkt.{Bytes, Ends, flow}
use qd.Qsrv.Flows.{
  Flows, FlowAt, FlowAt-discrete, flow_of, heads_cap, mark_egress, held_at, mark_anew, mark_flow,
  note_mark, leaves,
}

-- The table after a mark on the flow `at`, with what was closed.
pub record Marked (s : Flows) (at : FlowAt) (mark : ℕ) (r : Flows × List ℕ) : Type 0 where
  pub noted : find FlowAt-discrete at r.0.heads ≡ some mark
  pub bounded : length s.heads ≤ heads_cap → length r.0.heads ≤ heads_cap
  pub others : (bt : FlowAt) → at ≢ bt → held_at r.0 bt ≡ held_at s bt
  pub closed :
      ((r.1 ≡ [])
        × (held_at r.0 at ≡ held_at s at)
        × ((find FlowAt-discrete at s.heads ≡ none)
            ⊎ (find FlowAt-discrete at s.heads ≡ some mark)))
      ⊎ ((r.1 ≡ held_at s at)
          × (held_at r.0 at ≡ [])
          × ((was : ℕ) × (find FlowAt-discrete at s.heads ≡ some was) × (was ≢ mark)))

room_bound :
    (s : Flows) (at : FlowAt) (mark : ℕ)
    → length s.heads ≤ heads_cap
    → length (put FlowAt-discrete at mark (if leb heads_cap (length s.heads) then [] else s.heads))
      ≤ heads_cap
room_bound s at mark small = elim (Bool-cases (leb heads_cap (length s.heads))) [
  | inl full ↦ rw full (let l = length-put-le FlowAt-discrete at mark [] in omega arith)
  | inr free ↦ rw free (let l = length-put-le FlowAt-discrete at mark s.heads in ground arith)
]

mark_fresh :
    (s : Flows) (at : FlowAt) (mark : ℕ)
    → find FlowAt-discrete at s.heads ≡ none
    → Marked s at mark (mark_anew s at none mark)
unfolding mark_anew held_at
mark_fresh s at mark absent = record {
  noted = find-put_self FlowAt-discrete at mark _;
  bounded = room_bound s at mark;
  others = λ bt ne. refl;
  closed = inl (refl, refl, inl absent);
}

mark_other :
    (s : Flows) (at : FlowAt) (was mark : ℕ)
    → find FlowAt-discrete at s.heads ≡ some was
    → was ≢ mark
    → Marked s at mark (mark_anew s at (some was) mark)
unfolding mark_anew held_at
mark_other s at was mark seen differs = record {
  noted = find-put_self FlowAt-discrete at mark _;
  bounded = room_bound s at mark;
  others = λ bt ne. rw (find-remove_ne FlowAt-discrete at bt s.held ne, held_at) refl;
  closed =
      inr
        (refl, rw (find-remove_self FlowAt-discrete at s.held, held_at) refl, (was, seen, differs));
}

pub mark_flow-Marked : (s : Flows) (at : FlowAt) (mark : ℕ) → Marked s at mark (mark_flow s at mark)
unfolding mark_flow
mark_flow-Marked s at mark = elim (Option-cases (find FlowAt-discrete at s.heads)) [
  | inl absent ↦ rw (absent, mark_flow) (mark_fresh s at mark absent)
  | inr (was, seen) ↦ elim (Bool-cases (was == mark)) [
    | inl same ↦
        let e : was ≡ mark = (==_iff was mark).0 same in
        rw (seen, mark_flow)
          (rw same (record {
            noted = seen ∙ ap (λ (m : ℕ). some m) e;
            bounded = λ h. h;
            others = λ bt ne. refl;
            closed = inl (refl, refl, inr (seen ∙ ap (λ (m : ℕ). some m) e));
          }))
    | inr other ↦
        rw (seen, mark_flow)
          (rw other
            (mark_other s at was mark seen (λ e. known_twice other ((==_iff was mark).1 e))))
  ]
]

-- After a marked packet of a flow, the flow has that mark and leaves to an exit exactly if the
-- mark is MarkEgress; a table of marks within its cap stays within it; the connections of the
-- flow are closed exactly if it had another mark before, and those of other flows are kept.
pub leaves-note_mark :
    (s : Flows) (pkt : Bytes) (mark : ℕ) (e : Ends)
    → flow pkt ≡ some e
    → Marked s (flow_of (e.src, e.src_port) (e.dst, e.dst_port)) mark (note_mark s pkt mark)
      × (leaves (note_mark s pkt mark).0 (e.src, e.src_port) (e.dst, e.dst_port)
          ≡ (mark == mark_egress))
unfolding note_mark leaves
leaves-note_mark s pkt mark e there =
    let at = flow_of (e.src, e.src_port) (e.dst, e.dst_port) in
    let m = mark_flow-Marked s at mark in rw (there, note_mark) (m, rw (m.noted, leaves) refl)
