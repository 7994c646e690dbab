-- ===== src/Qsrv/Flows/Tests.antt =====
-- internal/qsrv/node.go: the theorem on marks at a UDP packet.
use qd.Prelude.{◌≡◌, refl, [], ◌∷◌, some, true, ◌==◌}
use qd.Netip.{v4}
use qd.Ippkt.{Bytes, Ends, flow, ends_of, after, spell}
use qd.Qsrv.Flows.{Flows, flow_of, note_mark, leaves, mark_egress}
use qd.Qsrv.Flows.Marks.{Marked, leaves-note_mark}

abbrev query : Bytes
query =
    0x45 ∷ 0 ∷ 0 ∷ 28 ∷ 0 ∷ 1 ∷ 0 ∷ 0 ∷ 64 ∷ 17 ∷ 0 ∷ 0 ∷ 10 ∷ 7 ∷ 0 ∷ 9 ∷ 8 ∷ 8 ∷ 8 ∷ 8 ∷ 19 ∷ 136
    ∷ 0 ∷ 53 ∷ 0 ∷ 8 ∷ 0 ∷ 0 ∷ []

abbrev ends : Ends
ends = record {
  src = v4 0x0a070009;
  src_port = 5000;
  dst = v4 0x08080808;
  dst_port = 53;
  udp = true;
}

abbrev session : Flows
session = record {
  route = [];
  marked = true;
  heads = [];
  held = (flow_of (v4 0x0a070009, 5000) (v4 0x08080808, 53), 3 ∷ []) ∷ [];
}

known_flow : flow query ≡ some ends
unfolding flow ends_of after spell
known_flow = refl

leaves-note_mark_example :
    Marked session (flow_of (v4 0x0a070009, 5000) (v4 0x08080808, 53)) 1 (note_mark session query 1)
    × (leaves (note_mark session query 1).0 (v4 0x0a070009, 5000) (v4 0x08080808, 53)
        ≡ (1 == mark_egress))
leaves-note_mark_example = leaves-note_mark session query 1 ends known_flow
