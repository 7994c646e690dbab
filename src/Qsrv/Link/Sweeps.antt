-- ===== src/Qsrv/Link/Sweeps.antt =====
-- internal/qsrv/link.go: which links `sweep` closes.
use qd.Prelude.{ℕ, ◌+◌, ◌≤◌, ◌≡◌, ◌≢◌, ◌↔◌, ap, ◌∙◌, false, none, some, arith}
use qd.Prelude.Dict.{kept_at, find-keep}
use qd.Qsrv.Link.{Where, Where-discrete, Link, Links, above_zero, swept, sweep}
use qd.Qsrv.Link.Table.{link_at, IsTable}

-- In a sound table, `sweep` closes a link exactly if no flow uses it, it was marked as quiet,
-- and it was quiet for at least the given time.
pub sweep_spares :
    (ls : Links) (now quiet : ℕ) (at : Where) (l : Link)
    → IsTable ls
    → link_at ls at ≡ some l
    → (link_at (sweep ls now quiet) at ≡ none)
      ↔ ((above_zero l.flows ≡ false) × (l.quiet ≢ 0) × (l.quiet + quiet ≤ now))
unfolding sweep kept_at swept
sweep_spares ls now quiet at l v there =
    let e =
      find-keep Where-discrete (swept now quiet) at ls.held v.unique
      ∙ ap (kept_at (swept now quiet) at) there in
    rw e (ground arith)
