-- ===== src/Netstate/Names.antt =====
-- internal/netstate/names.go: the name that NameFor picks.
