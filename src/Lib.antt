-- ===== src/Lib.antt =====
-- Lightscale: a WireGuard overlay whose daemon keeps users, groups, services and access rules in
-- SQLite, decides from a snapshot of them which peer may reach what, and cuts the flows that a change
-- no longer allows.
--
-- The parts and their files:
--   Store      daemon/store/*.go and daemon/store/migrations: a record Db of tables, `Tx` for the body
--              of a transaction, one function for each method (CreateUser is create_user, its
--              transaction create_user_tx, its INSERT insert_user). Store/Checks is namespace.go,
--              Users, Policies and Settings the files of those names, Groups, ServiceGroups and
--              ServiceMembers groups.go, Services and Ports services.go. Store/Steps lists the changes
--              that the SQL statements make, Store/Steps/* show that the transactions make no others,
--              Store/Commands gathers the writes into one type, Store/Invariants are about any
--              sequence of them.
--   Policy     daemon/policy: the snapshots of index.go in Policy, its Build, which reads the store, in
--              Policy/Build, the decisions (resolver.go) in Policy/Resolver, the open flows
--              (flowtable.go) in Policy/FlowTable.
--   IpAlloc    daemon/ipalloc/allocator.go: the addresses of new users and services.
--   Origin     shared/origin/origin.go: where the backend of a service is; Store/Services calls it.
--   Runtime    daemon/runtime: listeners.go, the virtual addresses that follow the index, the network
--              device a parameter; ensureServerKeypair of daemon.go in Keypair.
--   Docker     daemon/docker/client.go: the addresses of containers, which Proxy/Containers joins with
--              the resolver.
--   Api        daemon/api: the values of shared/wire in Api/Wire, the handlers of users.go, groups.go,
--              services.go and policies.go in Users, Groups, ServiceGroups, Services and Policies,
--              parsePorts in Ports, the lookup of names in Names, wgconf.go in ClientConf, and the
--              routes of server.go, as one data type of requests, in Routes. A handler is named as in
--              the source and calls the function of Store with that name; what it does before the
--              call is the function prepare_user, prepare_service or prepare_update; Routes/Inputs has
--              what the body of a request asks for without them. dns.go is in Zone,
--              listConnections of status.go in Connections.
--   Proxy      daemon/proxy: resolver.go in Proxy, over any calls in Proxy/Sources and History, the
--              choice of an endpoint in Select; tcp.go and udp.go in Proxy/Forward, with the flow table
--              and the changes of the store in Forward/Always.
--   Wg         daemon/wg: relay.go in Relay, ApplyPeers of server.go in Peers.
--   Dns        daemon/dns/zone.go, which Api/Zone (daemon/api/dns.go) calls; the sort is a parameter.
--   Cli        cli/cli/service.go: the ports as they are shown.
--   Strconv, Strings   what these use of Go's strconv and strings.
--   Netip      what these use of Go's net/netip: addresses, prefixes, parsing and printing.
--   Prelude    tests, rows of tables, keys, maps as association lists, results.
--
-- State is passed explicitly: a method of the store takes the store and returns it with the result; a
-- failed transaction returns the store that it was given. A Go map is a list of pairs, in whatever
-- order a loop visits it. Ids are natural numbers; those of the flow table wrap at 2 ^ 64. The loop
-- of Allocate runs on one unit of fuel for each address from the first candidate to the broadcast
-- address and one more. That is enough, as the theorem on it shows, but for the subnet
-- 255.255.255.255/32 with the text "invalid IP" taken or reserved: there the source's loop never ends,
-- and the model answers out_of_fuel. Other loops are structural. A handler of the API is one step,
-- though in the source its calls of the store are transactions of their own, between which another
-- request may come: what is stated of several requests is about one after the other.
--
-- Not modelled: failures of SQLite and of the disk, goroutines (the store has one connection and each
-- method of the flow table holds its mutex), HTTP and JSON, the texts of errors, the routes /status,
-- /peers and /discover of the API, the command line but for its ports, the web frontend, the container
-- runtime, the network stack and WireGuard itself. The name server, the probe and the dial of a
-- backend, the codecs of keys and the WireGuard device are parameters.
pub mod Prelude
pub mod Netip
pub mod Origin
pub mod IpAlloc
pub mod Store
pub mod Policy
pub mod Runtime
pub mod Docker
pub mod Dns
pub mod Proxy
pub mod Wg
pub mod Api
pub mod Cli
pub mod Strconv
pub mod Strings
