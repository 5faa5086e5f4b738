-- ===== src/Lib.antt =====
-- OpenRung: a broker that keeps a directory of volunteer relays and hands out access to them, the
-- relays' engine, and the clients' engine.
--
-- The parts and the files that model them:
--   Broker/Store       internal/broker: the in-memory Store behind RelayStore, AccessStore and
--                      LeaseStore. Store.antt has the state. Store/Directory is store.go (Register,
--                      Heartbeat and the updates), Store/Lookups its reads and Prune,
--                      Store/Telemetry its telemetry, Store/Users is store_access.go and users.go,
--                      Store/Leases, Issue and LeaseSets are store_leases.go and leases.go.
--                      Store/Endpoints, Tokens, Enrollment, Revocation, Cap, Revisions, Ownership
--                      and Issued have the proofs.
--   Broker/RelayCap    internal/broker/registration_cap.go: the cap on new relay identities.
--   Broker/Ledger      internal/broker/relayledger.go: the IDs that count as known.
--   Broker/Challenges  the challenge table of internal/broker/users.go.
--   Broker/SignIn      its handler, with the keys and signatures of brokerapi/users.go. AccessToken is
--                      the tokens; RoundTrip, Grants and Once have the proofs.
--   Broker/Access      internal/broker/client_access.go and access.go: the handlers of access requests,
--                      lease polls, acknowledgements and operators, over one World. Stats are the
--                      counters, Candidates the choice of relays, Await the wait for their
--                      acknowledgements, Reply the answer, Handler the request, Polls the rest;
--                      Selection, Reserved, Acknowledged, Ends, Granted, IssuedFor, Authorized,
--                      Denied, Relays and Records have the proofs.
--   Broker/Notifier    internal/broker/leases.go, leaseNotifier: the wake-ups of long polls. Wakes and
--                      Broadcasts have the proofs.
--   Engine/Credentials internal/relayruntime/credential.go and engine/credentials.go, with the heartbeat
--                      of engine.go: the rotation of credentials. Schedule is credential.go; Announced and
--                      Retired have the proofs.
--   Engine/LeaseSync   internal/relayruntime/engine/leases.go: the relay's side of access leases.
--                      Xray is outside of the model, but for whether its calls return an error. Reconcile,
--                      Target and Cycle have the proofs.
--   Core/Breaker       connectcore/punchbreaker.go: the circuit breaker of hole punching.
--   Core/Ranker        connectcore/ranker.go: the order of the connect ladder.
--   Core/Outbox        connectcore/clienttelemetry/outbox.go: the telemetry queue and its file. Batch is
--                      the choice of an upload, Queue the operations with the loop of Flush in
--                      manager.go; Bounds, Progress, Drain, Ends, Kept and Reload have the proofs.
--   Tunnel/Ports       internal/tunnel/allocator.go: the hub's public ports.
--   Wss/Ticket         internal/wssbridge/ticket.go: the tickets of the bridge. Policy is the checks
--                      of claims, Keys the parsing of configured keys; Accepted, Dots, Later and
--                      RoundTrip have the proofs.
--   Wss/Usage          internal/wssbridge/limits.go: sessions and streams by source.
--   Wss/Replay         internal/wssbridge/replay.go: the journal of consumed ticket identifiers, with
--                      validID of ticket.go. Journal is its text; RoundTrip, Memory, Disk, Once,
--                      Reopen and Safety have the proofs.
--   Base               shared tests, lists, maps, integers, sorting; Space is TrimSpace and EqualFold.
--
-- How they interact: a relay registers with the directory, which gives it a lease token; a client
-- signs in (SignIn, over Challenges and Users), asks for access with its token (Access), and is
-- issued leases on relays (Issue). The issue wakes the relays' polls (Notifier); a relay fetches its
-- set, reconciles Xray to it (LeaseSync), and acknowledges it, which wakes the request that waits
-- (Access/Await), and the client is given the relays that acknowledged. Disabling a user revokes the
-- leases, which the next fetch no longer has. Clients without leases use the credential that a relay
-- announces with its heartbeats (Credentials). Behind a CDN front, the sidecar verifies a client's
-- ticket (Ticket), consumes its identifier (Replay), and counts its source (Usage).
--
-- A method that the source runs under a mutex is a function from a state to a state, with an error
-- as a value. Go's maps are association lists, written by insert, remove and keep alone; a range
-- over a map goes through the list. Times are numbers of nanoseconds (milliseconds in RelayCap),
-- and the zero time is 0. Random values, clocks' readings, and answers of other processes are
-- arguments. All loops but one are structural: the allocator's probe runs over the count of its
-- ports, as the source's does. The loop of Flush over the outbox has fuel; 502 turns are enough,
-- since a queue has at most 500 events and each turn that goes on makes it shorter. A loop that waits
-- for others takes a list of rounds, each with what the others do meanwhile, and an answer of its
-- own where the rounds run out; the wait for acknowledgements ends with the round that follows its
-- deadline.
--
-- Not modelled: the Postgres store, the other HTTP handlers, dashboards and commands, which are glue
-- around external services; scores and rate limiters, which compute with floats; sockets and
-- processes.
pub mod Base
pub mod Broker
pub mod Core
pub mod Engine
pub mod Tunnel
pub mod Wss
