-- ===== src/Lib.antt =====
-- PerspectiveGraph: a verification of the core of the backend, which keeps a graph of what security
-- tools report (nodes and edges with properties), and finds in it the paths by which an attacker
-- could reach what matters.
--
-- The parts and how they interact:
--   * events (backend/pkg/ontology) come from collectors; the graph store's contract
--     (backend/internal/graph/store.go) says what of an event enters the graph; the in-memory store
--     (backend/internal/graph/memory/memory.go) keeps it, parks an edge until both of its ends are
--     there, and retracts what a source's complete snapshot no longer asserts;
--   * the analyzer (backend/internal/analyzer) takes a snapshot of the graph, weighs its edges by
--     -ln of their probability, searches from each exposed node, and rebuilds and scores the paths;
--   * a large event is split into messages for the event bus (backend/internal/broker/batch.go), of
--     which each is an event that enters the graph on its own; the replicas that consume them keep the
--     state of a batch in a bucket that they share (backend/internal/broker);
--   * what became of the paths from one analysis to the next is kept as a history
--     (backend/internal/history), the decision to accept a path as a suppression
--     (backend/internal/suppress), and the work on one as a ticket (backend/internal/ticket);
--   * what people and collectors do is recorded in an audit log (backend/internal/audit), whose records
--     are chained by hashes.
--
-- Which file models which part:
--   * Base: Boolean tests, maps (association lists under lookup, insert and erase; a loop over a map
--     visits the keys in the list's order), slices, integers and times, `float64`;
--   * Ontology (Values, Nodes, Vocabulary, Events): backend/pkg/ontology/event.go and labels.go.
--     A property bag maps a key to a `Value`, which tells apart the dynamic types that the code does;
--   * Graph/Contract, Graph/Events, Graph/Vocabulary: backend/internal/graph/store.go. `apply_event`
--     is ApplyEvent on the in-memory store;
--   * Graph/Versioned: VersionedStore of the same file over the in-memory store, which implements all
--     the optional interfaces, so the branches for a store without them are left out;
--   * Graph/Memory: backend/internal/graph/memory/memory.go. `State` has the record `Store` and the
--     steps landLocked, parkLocked, unparkLocked and putEdgeLocked; `Upsert` UpsertNode, UpsertEdge
--     and the batches; `Sweep` and `Prune` the operations of those names. The other files of the
--     folder prove what these do: Steps and Consistent the invariant step by step, Taking, Expiry,
--     Batch and Facts the batches, Assertions says who
--     asserts what, Withdrawal, Retraction and Sweeps prove the sweep, Prunes the prune, Runs any
--     sequence of calls. Each operation holds the store's lock, so it is one step, and the
--     clock that it reads is an argument;
--   * Analyzer/Weights and Analyzer/Adjacency: a hop's probability, its provenance, and the
--     adjacency (backend/internal/analyzer/attackpath.go, as all of Analyzer);
--   * Analyzer/Heap: the priority queue, its order and its contents (Order, Up, Down, Queue);
--   * Analyzer/Dijkstra: the search (dijkstra), its walks and invariant (Walks, Invariant), what
--     is left to do (Fuel), one out-edge (Relax), one popped item (Expand), the whole loop (Main);
--   * Analyzer/Paths: reconstruct, pathsFromSeed and the scores of a path (Routes,
--     Correlation, Scores, Bounds);
--   * Analyzer/Critical: FindCriticalPaths, the seeds and jewels of a snapshot (Roles), the order of
--     the paths (Ranking), and that none is missing (Complete, Answer);
--   * Analyzer/Alternatives: the graph without parallel edges and the search on what is left of it
--     (newWGraph, neighbors, shortest, pathCost of backend/internal/analyzer/kshortest.go), with
--     its out-edges (Rows, Parallel), node sequences (Sequences), that it is the search of
--     Analyzer/Dijkstra (Search), and its answer (Shortest);
--   * Analyzer/Yen: kShortest, toAttackPath, KShortestPaths and KShortestToTarget of the same file,
--     with one spur (Spurs), the lists (Sound) and the answer (Answer);
--   * Analyzer/WhatIf: cutEdges of backend/internal/analyzer/kshortest.go, the snapshot that a fix is
--     tried on;
--   * Audit: the tamper-evident log (backend/internal/audit/audit.go). `Storable` and `Stored`
--     what of a field is kept, `Log` Record, Open and Verify on the lines of the file, `Chain`
--     what Verify accepts, `Writing` that what is written verifies and is resumed, `Evidence`
--     that the last hash fixes the log. JSON, SHA-256, base64, the sealer and the line scanner
--     are the record `Codec`, and what is relied on of them are `CodecLaws` and `DigestLaws`.
--     JSON need not give back a field as it was: whether the hashes of the records that are read
--     are those written is left open (`HashesKept`);
--   * Broker: splitEvent, emitHalves, emitNodes and emitEdges (backend/internal/broker/batch.go), with
--     the groups (Packing), what the messages carry (Messages) and the recursion (Split). JSON is the
--     record `Json`;
--   * Delivery: markApplied (backend/internal/broker/batch.go), recordSnapshot and maybeSweep
--     (snapshot.go), BatchStatus (Status), and the callback of Consume with retryOrDeadLetter of
--     nats.go (Consumer). The key-value bucket of NATS is the record `KeyValue`, and what is relied
--     on of it `KeyValueLaws`. Replicas has its calls as steps of a relation, Sweeping and Once what
--     holds in any order of them, Calls what a delivery records and sweeps (under
--     `SnapshotLaws`), Composed that a delivery is made of such steps;
--   * History: the store of backend/internal/history/history.go in memory, with ObservePass on one
--     path (Lifecycle, Order), the trend (Trend), any sequence of calls (Runs), and Stats and statsOf
--     (Statistics, Panel);
--   * Suppress: the store of backend/internal/suppress/suppress.go, with its table (Table), the calls
--     (Refine), the map that they promise (Promise) and the file (Saved). JSON and the sealer are the
--     record `Codec`, and what is relied on of them `CodecLaws`;
--   * Ticket: the store of backend/internal/ticket/ticket.go, with what holds of every store (Ledger,
--     Runs) and a repeated Create (Again). JSON and the sealer are its record `Codec`;
--   * Ratelimit: the limit on requests by address (backend/internal/ratelimit/ratelimit.go), its table
--     of clients and what one address can do to another (Table);
--   * Tests: runs on small inputs, and for each result that has hypotheses an input that meets them.
--
-- Numbers: an `int` or `int64` is kept as its value, which the code compares but does not add
-- up. A `float64` is a parameter: a type with the operations that the code uses (`Floats`), and
-- what IEEE 754 arithmetic without NaN guarantees of them as hypotheses (`FloatLaws`): a strict
-- weak order, monotone and commutative addition, and -ln not negative on (0, 1]. No law makes
-- addition associative or exact. `ProductLaws` adds that a product of numbers in [0, 1] is one
-- and no more than either.
--
-- Fuel: a sift of the heap has one unit for each index on its way and a spare one. The search
-- has one pop for the source and for each out-edge, and rebuilding a path one step for each node
-- that the search can have looked at; the search for alternative paths has a spare pop more.
-- Splitting an event has one level for each of its nodes and edges and a spare one. That these
-- are enough is part of the results on them; the rounds of Yen's algorithm are the paths that
-- are asked for.
--
-- Not modelled: the Apache AGE store (Cypher text sent to PostgreSQL), the parsers and connectors
-- of third-party formats, the HTTP and GraphQL surface, the frontend, the other readers of the
-- store (PendingEdges, SnapshotSince), the paths that a database finds, the simulation of risk,
-- the stores in PostgreSQL (SQL), the file of the history, the publishing of messages and the
-- connection to NATS. Of an attack path the id, the posterior interval and the mixture over
-- attacker profiles are left out. strings.ToUpper after strings.TrimSpace, which names a shared
-- cause, is a parameter. Log lines and the cancellation of a context are left out.
pub mod Base
pub mod Ontology
pub mod Graph
pub mod Tests
pub mod Analyzer
pub mod Audit
pub mod Ratelimit
pub mod Broker
pub mod History
pub mod Suppress
pub mod Ticket
pub mod Delivery
