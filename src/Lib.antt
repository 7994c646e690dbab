-- ===== src/Lib.antt =====
-- qd is a private network: a client (internal/qcli) sends IP packets through a node (internal/qsrv),
-- and a node reaches the Internet or hands a flow on to another node. This library models the parts
-- of the Go code that decide: the tables of a node, the packets, and the translation of addresses.
--
-- - Prelude: Boolean tests on native numbers, lists with the library's names, association lists.
-- - Netip: the addresses and prefixes of net/netip as far as the code uses them. Zones do not occur.
-- - Qsrv.Pool: internal/qsrv/pool.go, the pool that leases tunnel addresses to seats (`Pool.take`,
--   `give`, `own`, `stream`); Grants, Refill, Streams and Liveness hold its theorems.
-- - Qsrv.Nat46: internal/qsrv/nat46.go, the table of stand-in IPv4 addresses for IPv6 destinations
--   (`stand`, `real`, `sweep`, `minted`, `slot_of`); Mint, Pairs, Steps, Lookups, Distinct, Oldest
--   and Slots hold its theorems.
-- - Ippkt: internal/ippkt/ippkt.go. Reading is in the module itself, the checksum in Checksum and
--   Fill, Reset4, Refuse, Refuse6, ICMPv6 and SetMSS in Build, Fragments4 in Split.
-- - Qcli.Nat: internal/qcli/nat/nat.go, the client's translation between its own addresses and the
--   ones that the node assigned; the IPv6 half and `apply` are in Apply. It uses Ippkt's checksums
--   for the packets that ICMP errors quote.
-- - Qsrv.Link: internal/qsrv/link.go, the table of links to peers (`to`, `chose`, `standing`, `sweep`);
--   Table, History and Sweeps hold its theorems. Dialing is outside: `connect` is its two locked
--   sections.
-- - Qsrv.Flows: internal/qsrv/node.go, the route, marks and open connections of a session.
-- - Netstate: internal/netstate, what a node is told of clients and peers; sorting and hashing are
--   parameters. Reach and Names hold its theorems.
-- - Domains: internal/domainroute/domainroute.go, which rule a name or an address falls under.
--   Load with its merged ranges is in Nets (`load`, `sort_nets`, `last`); Order, Ranges, Merging,
--   Grouping, Sorting and Loaded lead to its theorem, and Places holds the one on answers.
-- - Qsrv.Seats: internal/qsrv/session.go with newLive and seatsOf of node.go, what a token grants and the
--   table of seats; Counting holds its theorems. Checking a token and hashing are parameters.
-- - Dns: internal/dnsproxy/dnsproxy.go. Reading and building messages are in the module itself, with
--   Walk, Labels, Agree, Replies, Answers, Ages, Stamps and Writes for their theorems; the kept answers in
--   Dns.Cache (`store`, `lookup`, `evict_above`, `reconfigure`), what becomes of a query in
--   Dns.Cache.Asking, the ids of the queries to an upstream in Dns.Waiters. A shelf of answers in the
--   order of use, in Dns.Cache.Shelf and Dns.Cache.History, is what the cache refines; Recency, Sound,
--   Refines and Runs lead to it.
-- - Roads: internal/roads/roads.go, the ways to a node in turn (`launch`, `turn`, `finished`) as a
--   state machine; Accounts and Progress hold its theorems.
-- - Blocklist: internal/blocklist/blocklist.go, which lists are in force and what they block; Force and
--   Tails hold its theorems, and Search the lemma on its binary search. The copies on disk are a parameter.
--
-- State and operations. A struct is a record, a Go map an association list (`range` walks the list)
-- or a function, and a method returns the new state. The code's locks make each method one step, so
-- a history is a list of calls. A packet is the list of its bytes, and a method that changes it in
-- place returns it. A time is an argument in seconds; where the code subtracts a time, the model adds
-- on the other side of the comparison; in Dns.Cache it is in nanoseconds, in Roads in milliseconds. A w-bit number wraps as `% 2 ^ w`.
--
-- Fuel. `take` has the code's own 2^20 rounds. The loop that mints a stand-in has the code's own
-- bound, the size of the slot. The folding of carries runs two rounds, enough for a uint32. The walk
-- over TCP options has one step more than the header has bytes and returns `none` if that is not
-- enough, which Ippkt.Build.Options excludes; the loop of Fragments4 has as many as the body has bytes,
-- and moves on by at least one a step. The walks over the labels of a DNS name have as
-- many turns as bytes are left (Dns.Walk), those over records the counts of the header, and the search
-- for a query id the code's own 65536.
--
-- Not modelled: files, JSON, timers and sockets (`load`, `save` and `Remember` of the stand-in
-- table among them), the servers, the transports, the panel and the user interfaces.
pub mod Prelude
pub mod Netip
pub mod Blocklist
pub mod Dns
pub mod Domains
pub mod Netstate
pub mod Ippkt
pub mod Qcli
pub mod Qsrv
pub mod Roads
