-- ===== src/Lib.antt =====
-- Models of the Task Discovery Service and proofs about them.
--
-- The service tells clients which address offers a task. It runs in one of two ways. In the
-- centralised one a server keeps a registry of tasks and addresses, in memory or in memory over a
-- persistent store, answers REGISTER and QUERY messages from it, and hides addresses that a
-- firewall does not let the requestor reach. In the other one peers form a distributed hash table:
-- each node knows a ring of identifiers, stores a task if it is among the k closest nodes to the
-- task's hash, and answers STORE and FIND messages.
--
-- The files and the code they are about:
--   Prelude and its children: lists, tests, sorting, rotation and results that the parts share.
--   Assoc: Go's maps as association lists. A range over a map reads the list from left to right,
--     so that a statement for all lists is one for all orders of iteration.
--   Text, Ip, Word: what the code uses of Go's strings, of package net and of 64-bit integers. A
--     text is a list of code points, an address a list of bytes, an int its 64 bits.
--   Registry: pkg/registry/registry.go. Registry/Memory is MemoryRegistry of
--     pkg/registry/memory.go, with one function for each method (register, register_with_capacity,
--     get_service_for_requestor, cleanup, list_services, get_stats); Registry/Weights is
--     serviceWeight, totalServiceWeight and selectWeightedAddress; Registry/Destination is
--     destinationIPFromAddress. Registry/StoreBacked is pkg/registry/store_backed.go over an
--     interface for pkg/store/store.go, with its query in Registry/StoreBacked/Query.
--   Firewall: pkg/firewall/firewall.go, its file format in Firewall/Load;
--     pkg/firewall/indexed_firewall.go in Firewall/Indexed.
--   Transport: pkg/transport/messages.go, over an interface for registries, and in Transport/Servers
--     the handlers of one datagram and of one connection (udp_server.go, tcp_server.go).
--   Client: pkg/client/client.go over UDP, TCP and TLS, with what is at the other end as a state that
--     an exchange takes to its next. Client/Proxy is pkg/client/clientProxy.go, Client/Parsing the
--     texts of its commands, Client/EndToEnd a proxy whose requests a server answers, with
--     what the buffers keep of a datagram as an argument.
--   Dht: pkg/dht/distributed_hash_table.go. Dht/Address has the canonical addresses and the hashes,
--     Dht/Ring the peers and the ring, Dht/Closest the k closest nodes, Dht/Storage the stored
--     registrations. Dht/Network is the message handler of pkg/dht/network.go, with Find in
--     Dht/Network/Find, Store and getFarthestDistance in Dht/Network/Store (its queue, the number of
--     its rounds and what it attempted in the children), and joinNetwork, the discovery, the ping and
--     the maintenance of peers in Dht/Network/Peers. Dht/Registry is pkg/dht/registry.go with what
--     Store and Find answer as an argument.
--   Postgres: pkg/store/postgres.go over a list of rows. Each SQL statement is read as an operation on
--     the rows; rows that an ORDER BY does not tell apart keep the order of the table, and times are
--     kept to the nanosecond, where postgres rounds to microseconds.
--   Simulation: Simulation/Proxy is Simulation/simproxy, the requests of the programs to their client
--     proxy; Simulation/Station is Simulation/station_computer, whose batches come back in any order
--     with what arrives meanwhile; Simulation/Gate is Simulation/gate, with the taps in Simulation/Tap
--     and the cached addresses in Simulation/Resolve. Simulation/Pctr is the back office of
--     Simulation/pctrbo, over the tables of Simulation/carddb/pctr.go: batches and journeys; its
--     reports of debts to the PA (Simulation/carddb/pa.go) are in Simulation/Pctr/Debts. Simulation/Pa
--     is the handler of /tokenize of Simulation/pa, with what other requests insert meanwhile.
--   Tests: concrete inputs, and the theorems applied to them.
--
-- A method is a function from the state, the present time and its arguments to its result and the
-- new state, and runs as one step: interleavings of two methods at the points where a lock is
-- released are modelled only in Simulation/Station and Simulation/Pa. Times are nanoseconds as natural numbers. Integers that clients or long
-- runs can drive to the end of their range (capacities, cursors, counters of queries) wrap around at
-- 2 ^ 64 and are compared with their sign. Parameters stand for what is not in the repository:
-- parsing and printing of addresses and networks (Net), SHA-256, JSON (Json), the persistent store
-- (Store), and the answers of other peers. A nil pointer that is read is `none`.
--
-- Loops are structural recursions. The binary search of sort.Search has as many rounds as the ring
-- has places. Store runs on fuel: each round takes an address from the queue, and a queue that starts
-- with k' nodes grows by at most `limit` addresses for each of the n addresses that there are, so that
-- k' + limit * n rounds are enough. A gate tries to resolve an address six times.
--
-- Not modelled: sockets, listeners, broadcasts, timers, logs, terminal and browser interfaces;
-- certificates; the connection to postgres and its migrations; the providers of firewall rules; the
-- programs under cmd; the other back offices, tickets, restitution and ticket machines of the
-- simulation; demos, test scripts and vendored code.
pub mod Prelude
pub mod Assoc
pub mod Text
pub mod Ip
pub mod Word
pub mod Dht
pub mod Registry
pub mod Firewall
pub mod Transport
pub mod Postgres
pub mod Client
pub mod Simulation
pub mod Tests
