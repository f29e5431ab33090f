-- ===== src/Lib.antt =====
-- Durable jobs, metric alerts, catalogue operations, feed ranking and cursors, the model registry,
-- events and accounts of the recommendation service.
--
-- The program keeps its truth in a database. Workers claim durable jobs under a lease and a fence,
-- and each change of a job writes a message for other processes. Alert rules are evaluated against
-- windows of samples. Operators take items offline, restore them or promote them in batches, which
-- are applied at once or when they are due. The feed merges candidates of several sources, drops
-- repeated topics, ranks for diversity, and places the active promotions; a signed cursor carries
-- its progress. The pages that are shown become exposures, client events refer to these and move
-- the profile of their user. Model versions pass through a registry, where one at a time is active.
-- Users log in to sessions, and registration is limited.
--
-- Files. Prelude: tests on numbers, Python exceptions as results (Results), tables with a key
-- (Table, Keyed), stable sorting (Sorting), floats as a parameter (Floats). Durable:
-- apps/api/app/async_runtime. Domain is domain.py, Rows is tables.py with its constraints,
-- Repository has one file for each group of methods of repository.py (Enqueue, Claim with Recover,
-- Work for heartbeat, succeed and fail, Manage for cancel and retry, Outbox); Invariant says when
-- the tables are consistent, Safety has a file of lemmas for each group of methods, System has the
-- sequences of committed operations, Behaviour the properties across several calls, Dispatcher the
-- run of OutboxHintDispatcher in service.py. Alerts: apps/api/app/alerts. Domain is domain.py, Rows
-- is tables.py, Reader and Service are service.py. Operations: apps/api/app/operations. Request is
-- schemas.py; Apply, Batches, Due and Promotions are service.py, over the rows of
-- apps/api/app/db/models.py in Rows. Feeds: apps/api/app/feeds. Candidates is domain.py; Merge,
-- Topics, Mmr and Placement are ranking.py; Slots, Fill, Rules, Selection and Returns hold their
-- proofs; Base64 and Cursor are cursor.py, with Bytes and CursorTrip for their proofs. Registry:
-- apps/api/app/models_registry. Repository and Jobs are repository.py, Activation is service.py,
-- over the tables of apps/api/app/db/models.py in Rows; OneActive, Publish, Cutover, JobKeys, Kept,
-- Moves, Lifecycle and Progress hold proofs, System the sequences of operations. Events:
-- apps/api/app/events. Snapshots, Pages, Titles, Profile, Submit and Batches are service.py;
-- Bounds, Consistent, Moved, Checked, Outcome, Kept, Replay, Counts and Recorded hold proofs,
-- System the sequences of operations. Auth: apps/api/app/auth. Security, Service (with
-- dependencies.py) and Limiter (rate_limit.py) are the code; Login, Sessions and Window hold
-- proofs.
--
-- State. A table is the list of its rows; a method is a function from the tables to a result with
-- the tables that it commits. An exception is an `err`, and the tables before the transaction
-- stand. create_batch commits a record of its failure too, so it returns tables with an error as
-- well. Rows that another transaction has locked are an argument (`Held`, `locked`), as are the ids
-- that uuid.uuid4() returns, with the hypothesis that they are not in use. Ids are numbers; an item
-- id in Operations is a number in the order of the texts. Times are microseconds of UTC. JSON is
-- its canonical text. sha256, the fingerprint of a request, the parser of uuids and the texts of
-- messages are parameters. A batch result keeps its fields apart; the constant authority_order is
-- left out. Redis, JSON web tokens, the password hasher, JSON, the keyed hash and Unicode are
-- records of functions, and what is relied on of them is named where it is used. A score in a
-- snapshot is its text. The records of Floats stand for Python's floats, with no law assumed; a
-- square may overflow. A web token is read at a time of the server's clock, which may differ from
-- the time that a caller gives.
--
-- Loops. `apply_items`, `apply_each`, `recover_each` and `deliver_each` recurse on the rows.
-- `free_slot` has as much fuel as there are slots, since each step passes a slot that is taken.
-- `fill` has two units of fuel for each row, since a turn outputs a row or jumps to the slot of the
-- next turn. `dispatch_each` recurses on the claims. `mmr_loop` has as much fuel as there are
-- candidates, since a turn selects one.
--
-- Not modelled: the masking in safe_error, the race of two insertions with one key between lookup
-- and savepoint, derived_title_topic, the service with its hints around the repository, HTTP and
-- cookies, search, the export of events, the file loader of models, the feed service, the worker,
-- and the training library.
pub mod Prelude
pub mod Durable
pub mod Alerts
pub mod Operations
pub mod Feeds
pub mod Registry
pub mod Events
pub mod Auth
