-- ===== src/Lib.antt =====
-- Verification of the core logic of BrowShare, which shares browser Profiles that run on
-- Workers. A Backend keeps Users, Profiles and Sessions in a database, and tells a Worker by
-- commands and outboxes to run a Profile's Chrome and to create and close the Tab of a Session.
-- A Session is reserved, delivered to its Worker, accepted when the Worker reports its Tab,
-- leased for ten minutes at a time, and closed. The Worker recycles Sessions by the limits of
-- their policies, decides their navigations by compiled policies, which may ask a script that a
-- shared interpreter runs, and admits Sessions and transfers by the storage that is left. It
-- shares the DevTools pipe of each Chrome among clients, and keeps completed downloads until one
-- is handed over or expires.
--
-- Files and the code they model:
-- + Prelude and its children: names of the libraries passed on; Boolean tests, lists, results of
--   code that throws (Outcome), integers.
-- + Host: what the platform gives the code (`new URL`, `URLPattern`, `JSON.parse`), as parameters.
-- + Recycling: apps/worker/src/session-recycling.ts, class SessionRecycling, and the policy values of
--   packages/contracts/src/session-policy.ts. Deadlines and Histories hold the proofs.
-- + Script: packages/navigation-policy/src/script-runtime.ts. The module's variables are the record
--   Runtime; calls, messages of the interpreter, its end and the timers are events in any order.
--   Invariant and Tickets hold the proofs.
-- + Navigation: packages/navigation-policy/src/index.ts (normalizeNavigationUrl and
--   compileNavigationPolicy with the `evaluate` that it returns); Navigation/Session:
--   apps/worker/src/session-navigation.ts. Navigation/Compiled and Navigation/Decisions hold the
--   proofs about compilation and about `evaluate`.
-- + Quota: packages/contracts/src/storage.ts and the admission check of
--   apps/backend/src/services/storage.ts.
-- + Storage: apps/worker/src/storage-protection.ts, class StorageProtection, with containsPath of
--   apps/worker/src/storage-observation.ts. Operations has the operations, Policies `applyPolicy` and
--   `forgetProfile`; Usage, Counting, Admission and Policies/Newest hold the proofs.
-- + Sessions: the Session tables of packages/database/src/schema/sessions.ts and enums.ts. Closure:
--   apps/backend/src/services/session-closure.ts. Lifecycle and Expiry: begin, accept, fail and expire
--   of apps/backend/src/services/session-reservations.ts. Leases:
--   apps/backend/src/services/session-leases.ts. Capacity: the capacity loop of `reserve` in
--   session-reservations.ts and the rows that it inserts. Sessions/Policies: resolveSessionPolicy of
--   apps/backend/src/services/session-policy-rules.ts. Transitions, Histories and Runs hold the
--   proofs about which row states go together and the moves of a status, Closing, Pending,
--   Deliveries, Begun, Facts and Accepted those about single operations; Sessions/Policies/Highest is about the choice of a group's policy.
-- + Cdp: apps/worker/src/cdp-pipe-bridge.ts, class CdpPipeBridge, through which the clients of one
--   Chrome share its two pipes. Operations has `#write`, `#call`, `#drop`, `#route` and `#send`,
--   Frames `#read`, Events the handlers and the steps. Frames/Stream, Frames/Chunks, Frames/Messages
--   and Frames/Loop hold the proofs about bytes, Tables and Ownership with its children those about
--   the tables, Answers and Isolation those about who is sent what. JSON is the parameter Codec, the
--   buffers of the sockets the parameter `buffered`; a handler of a promise is an event.
-- + Downloads: apps/worker/src/retained-downloads.ts, class WorkerRetainedDownloads, with the metadata of
--   packages/contracts/src/downloads.ts. Operations has the sink, `endSession`, `acquire` and `finish`,
--   Operations/Disposal claims, `expire` and `acknowledge`, Recovery `initialize`. The directory is a
--   part of the state, and the bytes are reserved at Storage. Durable, Claims and Budget with their
--   children and Recovery/Restart hold the proofs.
-- A file Examples applies the theorems to concrete data.
--
-- Conventions. Times are numbers of milliseconds, and the clock is an argument of an operation;
-- identities, which the code only compares, are numbers. An exception is a result `throw`, and
-- in a transaction it leaves the tables as they were. A transaction locks the rows that it
-- writes, so it is one step, and interleavings are sequences of steps. A table is the list of
-- its rows; an update by primary key writes the first row with the key. The operations on
-- Sessions run in any order and with any arguments, and so do the events of Script, except where
-- a theorem says which histories its worker can produce. Loops are structural recursion on a
-- list, but for the loop of `#read`, which has fuel for one round more than its buffer has
-- bytes: every round that goes on takes a byte away.
--
-- Bounds: the queue of Script holds 16 jobs; `expire` takes 100 rows at a time; leases last
-- 600000 and are renewed in their last 300000 milliseconds; byte counts stop at 2^53 - 1; a
-- frame of the DevTools pipe has at most 2^24 bytes, 2^25 wait for a pipe or a socket, and 16384
-- commands are pending. Numbers have no other bound, and the percentages of disk thresholds are
-- whole.
--
-- Not modelled: the rest of `reserve` of session-reservations.ts; in `queueSessionClose` an error
-- of the encoding of the command, and the identity of the outbox row, unique for its Session;
-- the observation loop of StorageProtection (what it finds is a part of the state) and its
-- timers, and in `release` the time between reading the paths and changing the state, and an
-- error of lstat that is not ENOENT, which keeps the reservation; the interpreter itself
-- (packages/navigation-policy/src/script-worker.ts), which is a third-party engine; the
-- backpressure and the server of CdpPipeBridge; errors of the file system in
-- WorkerRetainedDownloads outside of `commit`, and a process that ends in the middle of one of
-- its operations; what SQL and `authorized` do, which is an argument; titles, summaries and
-- message texts; and the rest of the Backend, Worker, Gateway and Portal.
pub mod Prelude
pub mod Recycling
pub mod Host
pub mod Script
pub mod Navigation
pub mod Quota
pub mod Storage
pub mod Sessions
pub mod Cdp
pub mod Downloads
