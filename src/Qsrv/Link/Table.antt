-- ===== src/Qsrv/Link/Table.antt =====
-- internal/qsrv/link.go: what the methods of the table of links do to the link at each place.
use qd.Prelude.{
  ℕ, ◌≡◌, refl, sym, ap, ◌∙◌, ◌⊎◌, inl, inr, true, Option, none, some, arith, Option-cases,
  none_some, some_same,
}
use qd.Prelude.Dict.{
  find, put, keep, kept_at, find-keep, keep-Unique, Unique, put-Unique, find-put_self, find-put_ne,
}
use qd.Qsrv.Link.{
  Where, Where-discrete, Link, Links, kept, at_link, drop_conn, released, swept, dropped,
}

abbrev pub link_at : Links → Where → Option Link
link_at ls at = find Where-discrete at ls.held

-- Every place has one link, which knows its place, and a seat has one winner at most.
pub record IsTable (ls : Links) : Type 0 where
  pub unique : Unique Where-discrete ls.held
  pub placed :
      (at : Where) (l : Link) → link_at ls at ≡ some l → (l.endpoint ≡ at.0) × (l.seat ≡ at.1)
  pub single :
      (at bt : Where) (l m : Link)
      → link_at ls at ≡ some l
      → link_at ls bt ≡ some m
      → at.1 ≡ bt.1
      → l.won ≡ true
      → m.won ≡ true
      → at.0 ≡ bt.0

-- The link stays the same but for its counters and its connection.
abbrev pub Stays : Link → Link → Type 0
Stays l m = (m.endpoint ≡ l.endpoint) × (m.seat ≡ l.seat) × (m.won ≡ l.won)

-- Every link of the second table stood at its place in the first.
abbrev From : Links → Links → Type 0
From ls ms =
    (at : Where) (m : Link)
    → link_at ms at ≡ some m
    → (l : Link) × (link_at ls at ≡ some l) × Stays l m

From-IsTable :
    (ls ms : Links) → Unique Where-discrete ms.held → From ls ms → IsTable ls → IsTable ms
From-IsTable ls ms u from v = record {
  unique = u;
  placed = λ at m e.
      let (l, there, (p, q, w)) = from at m e in
      (p ∙ (v.placed at l there).0, q ∙ (v.placed at l there).1);
  single = λ at bt a b ea eb same wa wb.
      let (l, there, (p, q, w)) = from at a ea in
      let (k, here, (r, s, x)) = from bt b eb in
      v.single at bt l k there here same (sym w ∙ wa) (sym x ∙ wb);
}

-- A loop that leaves links as they are, but for counters.
keep-From :
    (ls : Links) (f : Where → Link → Option Link)
    → ((at : Where) (l m : Link) → f at l ≡ some m → Stays l m)
    → Unique Where-discrete ls.held
    → From ls (record ls { held = keep f ls.held })
unfolding kept_at
keep-From ls f stays u at m e =
    let was = find-keep Where-discrete f at ls.held u in
    elim (Option-cases (link_at ls at)) [
      | inl absent ↦ none_some (was ∙ ap (kept_at f at) absent) e
      | inr (l, there) ↦ (l, there, stays at l m (sym (was ∙ ap (kept_at f at) there) ∙ e))
    ]

at_link_cases :
    (ls : Links) (at : Where) (f : Link → Link)
    → ((link_at ls at ≡ none) × (at_link ls at f ≡ ls))
      ⊎ ((l : Link) × (link_at ls at ≡ some l)
          × (at_link ls at f ≡ record ls { held = put Where-discrete at (f l) ls.held }))
unfolding at_link
at_link_cases ls at f = elim (Option-cases (link_at ls at)) [
  | inl absent ↦ inl (absent, rw (absent, at_link) refl)
  | inr (l, there) ↦ inr (l, there, rw (there, at_link) refl)
]

put-From :
    (ls : Links) (at : Where) (l k : Link)
    → link_at ls at ≡ some l
    → Stays l k
    → From ls (record ls { held = put Where-discrete at k ls.held })
put-From ls at l k there stays bt m e = elim (Where-discrete at bt) [
  | yes same ↦
      let now = ap (λ (w : Where). find Where-discrete w (put Where-discrete at k ls.held)) same in
      let new : k ≡ m = some_same k m (sym (find-put_self Where-discrete at k ls.held) ∙ now ∙ e) in
      (
        l,
        ap (link_at ls) (sym same) ∙ there,
        (
          ap (λ (x : Link). x.endpoint) (sym new) ∙ stays.0,
          ap (λ (x : Link). x.seat) (sym new) ∙ stays.1,
          ap (λ (x : Link). x.won) (sym new) ∙ stays.2,
        ),
      )
  | no other ↦ (m, sym (find-put_ne Where-discrete at bt k ls.held other) ∙ e, (refl, refl, refl))
]

pub at_link-IsTable :
    (ls : Links) (at : Where) (f : Link → Link)
    → ((l : Link) → Stays l (f l))
    → IsTable ls
    → IsTable (at_link ls at f)
at_link-IsTable ls at f stays v = elim (at_link_cases ls at f) [
  | inl (absent, same) ↦ rw same v
  | inr (l, there, same) ↦ rw same (
      From-IsTable ls (record ls { held = put Where-discrete at (f l) ls.held })
        (put-Unique Where-discrete at (f l) ls.held v.unique)
        (put-From ls at l (f l) there (stays l)) v)
]

pub keep-IsTable :
    (ls : Links) (f : Where → Link → Option Link)
    → ((at : Where) (l m : Link) → f at l ≡ some m → Stays l m)
    → IsTable ls
    → IsTable (record ls { held = keep f ls.held })
keep-IsTable ls f stays v =
    From-IsTable ls (record ls { held = keep f ls.held })
      (keep-Unique Where-discrete f ls.held v.unique) (keep-From ls f stays v.unique) v

pub kept-Stays : (seat : ℕ) (at : Where) (l m : Link) → kept seat at l ≡ some m → Stays l m
unfolding kept
kept-Stays seat at l m e = ground arith

pub swept-Stays :
    (now quiet : ℕ) (at : Where) (l m : Link) → swept now quiet at l ≡ some m → Stays l m
unfolding swept
swept-Stays now quiet at l m e = ground arith

pub released-Stays : (now : ℕ) (l : Link) → Stays l (released now l)
unfolding released
released-Stays now l = ground arith

pub dropped-Stays : (cc : Option ℕ) (l : Link) → Stays l (dropped cc l)
unfolding dropped drop_conn
dropped-Stays cc l = ground arith
