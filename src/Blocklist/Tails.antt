-- ===== src/Blocklist/Tails.antt =====
-- internal/blocklist/blocklist.go, Blocked: the names below a listed one.
use qd.Prelude.{ℕ, suc, ◌||◌, Bool, false, List, [], ◌∷◌, if◌then◌else◌, ◌==◌}
use qd.Domains.{Name}

-- The dots of a name.
unfoldable pub dots : Name → ℕ
dots [] = 0
dots (c ∷ rest) = if c == 46 then suc (dots rest) else dots rest

-- Some hash of the list is that of the name.
unfoldable has_hash : ℕ → List ℕ → Bool
has_hash h [] = false
has_hash h (k ∷ rest) = k == h || has_hash h rest
