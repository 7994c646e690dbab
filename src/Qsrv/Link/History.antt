-- ===== src/Qsrv/Link/History.antt =====
-- internal/qsrv/link.go: the table of links under every history of calls.
use qd.Prelude.{
  ℕ, ◌≡◌, ◌≢◌, refl, sym, ap, ◌∙◌, ◌⊎◌, inl, inr, Bool, true, false, Option, none, some, List, [],
  ◌∷◌, arith, is_yes, Option-cases, none_some, some_same, known_twice,
}
use qd.Prelude.Int.{pos}
use qd.Prelude.Dict.{
  find, put, kept_at, find-keep, keep-Unique, Unique, put-Unique, find-put_self, find-put_ne,
}
use qd.Qsrv.Link.{
  Name, Name-discrete, Where, Where-discrete, Link, Links, new_links, to, chosen, chose, kept,
  forget, hold, up, released, release, swept, sweep, dropped, drop, standing, first_won,
  first_alive,
}
use qd.Qsrv.Link.Table.{
  link_at, IsTable, at_link-IsTable, keep-IsTable, kept-Stays, swept-Stays, released-Stays,
  dropped-Stays,
}

new_links-IsTable : (token self : Name) → IsTable (new_links token self)
unfolding new_links find
new_links-IsTable token self = record {
  unique = tt;
  placed = λ at l e. cc;
  single = λ at bt l m ea eb same wa wb. cc;
}

-- A link of the table after `chose` is a link that stood there, won if its place is the chosen one.
chose_was :
    (ls : Links) (seat : ℕ) (e : Name) (at : Where) (m : Link)
    → Unique Where-discrete ls.held
    → link_at (chose ls seat e) at ≡ some m
    → (l : Link) × (link_at ls at ≡ some l) × (chosen seat e at l ≡ some m)
unfolding chose kept_at
chose_was ls seat e at m u h =
    let was = find-keep Where-discrete (chosen seat e) at ls.held u in
    elim (Option-cases (link_at ls at)) [
      | inl absent ↦ none_some (was ∙ ap (kept_at (chosen seat e) at) absent) h
      | inr (l, there) ↦ (l, there, sym (was ∙ ap (kept_at (chosen seat e) at) there) ∙ h)
    ]

chosen_facts :
    (seat : ℕ) (e : Name) (at : Where) (l m : Link)
    → chosen seat e at l ≡ some m
    → (m.endpoint ≡ l.endpoint)
      × (m.seat ≡ l.seat)
      × (((at.1 ≡ seat) × (m.won ≡ is_yes (Name-discrete at.0 e)))
          ⊎ ((at.1 ≢ seat) × (m.won ≡ l.won)))
unfolding chosen
chosen_facts seat e at l m h = ground arith

yes_same : (a b : Name) → is_yes (Name-discrete a b) ≡ true → a ≡ b
yes_same a b h = elim (Name-discrete a b) [ yes e ↦ e | no ne ↦ ground arith ]

-- Of two winners of a seat, both are at the chosen endpoint, or both won before.
chosen_single :
    (seat : ℕ) (e : Name) (at bt : Where) (l k a b : Link)
    → chosen seat e at l ≡ some a
    → chosen seat e bt k ≡ some b
    → at.1 ≡ bt.1
    → a.won ≡ true
    → b.won ≡ true
    → (at.0 ≡ bt.0) ⊎ ((l.won ≡ true) × (k.won ≡ true))
chosen_single seat e at bt l k a b ha hb same wa wb =
    let (p, q, x) = chosen_facts seat e at l a ha in
    let (r, s, y) = chosen_facts seat e bt k b hb in
    elim x [
      | inl (here, xw) ↦ elim y [
        | inl (there, yw) ↦
            inl (yes_same at.0 e (sym xw ∙ wa) ∙ sym (yes_same bt.0 e (sym yw ∙ wb)))
        | inr (away, yw) ↦ absurd (away (sym same ∙ here))
      ]
      | inr (away, xw) ↦ elim y [
        | inl (there, yw) ↦ absurd (away (same ∙ there))
        | inr (far, yw) ↦ inr (sym xw ∙ wa, sym yw ∙ wb)
      ]
    ]

chose-IsTable : (ls : Links) (seat : ℕ) (e : Name) → IsTable ls → IsTable (chose ls seat e)
unfolding chose
chose-IsTable ls seat e v = record {
  unique = keep-Unique Where-discrete (chosen seat e) ls.held v.unique;
  placed = λ at m h.
      let (l, there, made) = chose_was ls seat e at m v.unique h in
      let (p, q, x) = chosen_facts seat e at l m made in
      (p ∙ (v.placed at l there).0, q ∙ (v.placed at l there).1);
  single = λ at bt a b ha hb same wa wb.
      let (l, there, made) = chose_was ls seat e at a v.unique ha in
      let (k, here, done) = chose_was ls seat e bt b v.unique hb in
      elim (chosen_single seat e at bt l k a b made done same wa wb) [
        | inl at_once ↦ at_once
        | inr (lw, kw) ↦ v.single at bt l k there here same lw kw
      ];
}

-- What `to` makes of the table: nothing new, or one link at a free place that has not won.
to_cases :
    (ls : Links) (at : Where) (session : ℕ)
    → ((l : Link) × (link_at ls at ≡ some l) × (to ls at session ≡ (ls, l)))
      ⊎ ((l : Link) × (link_at ls at ≡ none)
          × (to ls at session ≡ (record ls { held = put Where-discrete at l ls.held }, l))
          × (l.endpoint ≡ at.0)
          × (l.seat ≡ at.1)
          × (l.won ≡ false))
unfolding to
to_cases ls at session = elim (Option-cases (link_at ls at)) [
  | inl absent ↦ inr (
    record {
      flows = pos 0;
      quiet = 0;
      won = false;
      endpoint = at.0;
      seat = at.1;
      session = session;
      conn = none;
      dialing = false;
      failed = 0;
      why = none;
    },
    absent,
    rw (absent, to) refl,
    refl,
    refl,
    refl,
  )
  | inr (l, there) ↦ inl (l, there, rw (there, to) refl)
]

put_was :
    (ls : Links) (at bt : Where) (l m : Link)
    → find Where-discrete bt (put Where-discrete at l ls.held) ≡ some m
    → ((at ≡ bt) × (l ≡ m)) ⊎ (link_at ls bt ≡ some m)
put_was ls at bt l m e = elim (Where-discrete at bt) [
  | yes same ↦
      let now = ap (λ (w : Where). find Where-discrete w (put Where-discrete at l ls.held)) same in
      inl (same, some_same l m (sym (find-put_self Where-discrete at l ls.held) ∙ now ∙ e))
  | no other ↦ inr (sym (find-put_ne Where-discrete at bt l ls.held other) ∙ e)
]

put-IsTable :
    (ls : Links) (at : Where) (l : Link)
    → l.endpoint ≡ at.0
    → l.seat ≡ at.1
    → l.won ≡ false
    → IsTable ls
    → IsTable (record ls { held = put Where-discrete at l ls.held })
put-IsTable ls at l he hs hw v = record {
  unique = put-Unique Where-discrete at l ls.held v.unique;
  placed = λ bt m e. elim (put_was ls at bt l m e) [
    | inl (same, new) ↦ (
      ap (λ (x : Link). x.endpoint) (sym new) ∙ he ∙ ap (λ (w : Where). w.0) same,
      ap (λ (x : Link). x.seat) (sym new) ∙ hs ∙ ap (λ (w : Where). w.1) same,
    )
    | inr old ↦ v.placed bt m old
  ];
  single = λ bt ct a b ea eb same wa wb. elim (put_was ls at bt l a ea) [
    | inl (here, new) ↦ known_twice hw (ap (λ (x : Link). x.won) new ∙ wa)
    | inr old ↦ elim (put_was ls at ct l b eb) [
      | inl (here, new) ↦ known_twice hw (ap (λ (x : Link). x.won) new ∙ wb)
      | inr stood ↦ v.single bt ct a b old stood same wa wb
    ]
  ];
}

to-IsTable : (ls : Links) (at : Where) (session : ℕ) → IsTable ls → IsTable (to ls at session).0
to-IsTable ls at session v = elim (to_cases ls at session) [
  | inl (l, there, e) ↦ rw e v
  | inr (l, absent, e, he, hs, hw) ↦ rw e (put-IsTable ls at l he hs hw v)
]

standing-IsTable :
    (gone : ℕ → Bool) (ls : Links) (runners : List Name) (seat : ℕ)
    → IsTable ls
    → IsTable (standing gone ls runners seat).0
unfolding standing
standing-IsTable gone ls runners seat v = elim (Option-cases (first_won gone ls runners seat)) [
  | inr (r, e) ↦ rw (e, standing) v
  | inl e ↦ elim (Option-cases (first_alive gone ls runners seat)) [
    | inl f ↦ rw (e, standing) (rw f v)
    | inr (r, f) ↦ rw (e, standing) (rw f (chose-IsTable ls seat r.1 v))
  ]
]

-- The calls that a node makes of the table; a call that looks at connections is told which are
-- gone.
pub data Call : Type 0 where
  tos : Where → ℕ → Call
  stands : (ℕ → Bool) → List Name → ℕ → Call
  choses : ℕ → Name → Call
  forgets : ℕ → Call
  holds : Where → Call
  releases : Where → ℕ → Call
  sweeps : ℕ → ℕ → Call
  drops : Where → Option ℕ → Call

unfoldable pub step : Links → Call → Links
step ls (tos at session) = (to ls at session).0
step ls (stands gone runners seat) = (standing gone ls runners seat).0
step ls (choses seat e) = chose ls seat e
step ls (forgets seat) = forget ls seat
step ls (holds at) = hold ls at
step ls (releases at now) = release ls at now
step ls (sweeps now quiet) = sweep ls now quiet
step ls (drops at cc) = drop ls at cc

unfoldable pub run : Links → List Call → Links
run ls [] = ls
run ls (c ∷ cs) = run (step ls c) cs

step-IsTable : (ls : Links) (c : Call) → IsTable ls → IsTable (step ls c)
unfolding step forget hold release sweep drop
step-IsTable ls (tos at session) v = to-IsTable ls at session v
step-IsTable ls (stands gone runners seat) v = standing-IsTable gone ls runners seat v
step-IsTable ls (choses seat e) v = chose-IsTable ls seat e v
step-IsTable ls (forgets seat) v = keep-IsTable ls (kept seat) (kept-Stays seat) v
step-IsTable ls (holds at) v =
    at_link-IsTable ls at (λ l. record l { flows = up l.flows }) (λ l. (refl, refl, refl)) v
step-IsTable ls (releases at now) v = at_link-IsTable ls at (released now) (released-Stays now) v
step-IsTable ls (sweeps now quiet) v = keep-IsTable ls (swept now quiet) (swept-Stays now quiet) v
step-IsTable ls (drops at cc) v = at_link-IsTable ls at (dropped cc) (dropped-Stays cc) v

run-IsTable : (ls : Links) (cs : List Call) → IsTable ls → IsTable (run ls cs)
unfolding run
run-IsTable ls [] v = v
run-IsTable ls (c ∷ cs) v = run-IsTable (step ls c) cs (step-IsTable ls c v)

-- After any history of calls on a new table of links (`to`, `standing`, `chose`, `forget`,
-- `hold`, `release`, `sweep`, `drop`), every place has one link, which knows its endpoint and
-- seat, and no seat has two links at different endpoints that won.
pub run-new_links-IsTable :
    (token self : Name) (cs : List Call) → IsTable (run (new_links token self) cs)
run-new_links-IsTable token self cs = run-IsTable _ cs (new_links-IsTable token self)
