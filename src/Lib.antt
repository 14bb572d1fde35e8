-- ===== src/Lib.antt =====
-- Agent Monitors: a model of the delivery core of the monitor runtime, with the theorems that make
-- it correct. Monitors observe sources and materialize events; every session has a delivery state
-- for each event; hosts claim pending events at points of a turn, a channel server pushes them
-- under a reservation, and an agent acknowledges them. A daemon runs the monitors and stops itself
-- when it is idle.
--
-- Parts, and the code that each file is about:
--   Event          libs/core/src/runtime/store.ts, netCollapseGroupKey and computeNetCollapseView:
--                  the event record, the order by (createdAt, id), the fold of the events of one
--                  object to its newest. Event/Order, Event/Key, Event/Newest, Event/Suppressed
--                  are about the order, the key, what is delivered and what is not.
--   Store          libs/core/src/runtime/store.ts, the tables as lists of rows: the queries
--                  unreadEventsForSession and pendingEventsForSession, acknowledgeEvents, cursors,
--                  session stamps. Store/Claims has the writes of a claim. Store/Rows, Store/Change
--                  and Store/Claimed relate a write of the delivery states to both queries.
--                  Store/Sessions has the sessions and the ephemeral monitors, Store/Insert
--                  insertEvent and recordInterpretDecision, Store/Retract the retractions and the
--                  tombstones. Store/Consistent says what holds between the tables, Store/Parts,
--                  Store/Kept, Store/KeptClaims, Store/Targets, Store/Projected and Store/Inserted
--                  are about each operation, Store/Reach about every store that the calls reach.
--                  Store/Members and Store/Once say what a query selects, Store/Projecting and Store/Isolation who sees an inserted event, Store/Retracted
--                  what a retraction leaves.
--   Retraction     libs/core/src/runtime/service.ts, retractObjectEvents, suppressObjectEvents and
--                  applyObjectSuppressions; Retraction/Sweep is about them.
--   Outbox         libs/core/src/runtime/store.ts, enqueueMaterializationRetries; Outbox/Capacity is
--                  about its bounds.
--   Json           JSON values with the property order of JavaScript, sortKeys and JSON.stringify;
--                  Json/Sorting is about the normal form.
--   Collection     libs/core/src/observation/keyed-collection.ts and display.ts;
--                  Collection/Reports and Collection/Diffing are about the reports of a diff,
--                  Collection/Snapshot about the snapshot.
--   Diff           libs/core/src/runtime/diff.ts: the line diff, and the rendering of the entries of
--                  a structural diff. Diff/Lines, Diff/Rendering and Diff/Paths are about these.
--   Reservations   libs/core/src/runtime/delivery-reservations.ts, the registry of leases.
--   Render         libs/core/src/runtime/service.ts, the texts and summaries of a delivery.
--   Delivery       libs/core/src/runtime/service.ts, decideDelivery; Delivery/Ops has
--                  claimDelivery, reserveDelivery, commitDelivery, releaseDelivery,
--                  acknowledgeSession and refreshHookState over the runtime's state.
--                  Delivery/Deciding, Delivery/Claiming, Delivery/Reserving,
--                  Delivery/Acknowledging are about these; Delivery/Surfacing and
--                  Delivery/Draining about repeated claims.
--   Notify         libs/core/src/runtime/service.ts, dispatchNotify and dispatchRollup: what a tick
--                  emits and what it holds. Notify/Pacing, Notify/Rollup, Notify/Throttle are about
--                  debounce, the scheduled rollup and the throttle.
--   Timeout        libs/core/src/notify/notifier.ts: durations, deadlines, and the pattern derived
--                  from the largest deadline. Timeout/Ranges, Timeout/Values, Timeout/Reading and
--                  Timeout/Bounds are about a digit range, Timeout/Pattern about the pattern.
--   Inbox          libs/core/src/inbox/inbox-service.ts, the item state machine; Inbox/Moves is
--                  about one write, Inbox/Reach about every inbox that the calls reach.
--   Reap           apps/cli/src/reap-decision.ts, shouldReap; Reap/Heartbeat is
--                  transport-heartbeat.ts of the same directory, Reap/Daemon the reaping check of
--                  commands/daemon.ts. Reap/Decision, Reap/Window and Reap/Stopping are about one and many rounds.
--   Prelude        what the parts share: tests, lists, texts, dictionaries, decimals.
--
-- State: Delivery reads a View, the Store's tables and the registry of Reservations; the methods
-- of Delivery/Ops take and return a Runtime, which adds the hook-state files. Each method reads
-- the clock once, its argument `now`. Ids that ulid() gives are arguments. A text is the list of
-- its code units. Times are natural numbers of milliseconds; the cut of a stored time to whole
-- seconds, which the database's columns make, is written out for the tombstones and left out
-- elsewhere. `buildDiff`, `cronMatchesDate`, `path.resolve`, `Intl.Segmenter`,
-- `Buffer.byteLength` and the inbox query's ORDER BY are parameters.
--
-- Bounds: every loop is over a list, and of the code's functions only `decimal` runs on fuel, one
-- digit's more than the number, so that every number is written out in full. The host's loop of
-- claims in Delivery/Draining has as fuel the number of claims, for which the pending events suffice. Time and counts have
-- no machine bound in the model; the source's are doubles, exact far beyond any date.
--
-- Not modelled: the database itself, the hosts' adapters and the hook-state files' JSON, failures
-- on unknown sessions, materialization, the attempts of its retries, the traversal that finds a structural diff, the plugins and the
-- command line.
pub mod Collection
pub mod Delivery
pub mod Diff
pub mod Event
pub mod Inbox
pub mod Json
pub mod Notify
pub mod Outbox
pub mod Prelude
pub mod Reap
pub mod Render
pub mod Reservations
pub mod Retraction
pub mod Store
pub mod Timeout
