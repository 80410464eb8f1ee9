-- ===== src/Lib.antt =====
-- posts-media: a platform for posts with images, audio and video. An HTTP API stores posts and
-- original files; a worker turns each file into variants.
--
-- The parts, and how they interact. A request with an Idempotency-Key runs under
-- libs/database/src/idempotency: one row per key holds its state, its lease and its outcome.
-- Creating an item or retrying it (libs/media/src) writes a Media row and a row of the outbox in
-- one transaction; creating a post and adding media to it (libs/posts/src) copy the uploads to the
-- storage before, and store the answer with the rows. The worker's dispatcher
-- (apps/worker/src/outbox) leases the rows of the outbox and adds their jobs to three BullMQ
-- queues. A job is run by apps/worker/src/processing: a claim leases the Media row of one
-- generation, an attempt is recorded, the original is downloaded and checked, a processor writes
-- artifacts, and a publication copies them to the storage and completes the row in the transaction
-- that records the variants. Uploads are recognised by libs/media/src/validation; posts are served
-- by libs/posts/src.
--
-- The files. Common: tests, lists, options, texts and decimals. Database: a table as an interface
-- of the statements that Prisma issues (find, update_many, create, delete_many, exists, maximum)
-- with their laws, and a list that meets it. Domain: libs/domain/src, JSON, and the two ways in
-- which a call fails. Queues: libs/queues/src. Schema: the rows of prisma/schema.prisma. Storage:
-- libs/storage/src, the port as an interface, and a list that meets it. Idempotency:
-- libs/database/src/idempotency, with Service/Rounds, Lease, Exclusive, Replay and Stale for its
-- proofs. Processing/Row: the guards and the writes of every statement on a Media row;
-- Processing/Lifecycle: these as events of one row; Processing/Claims: worker-claim.service.ts on
-- the tables; Processing/Message: its error messages; Processing/Publication:
-- variant-publication.service.ts; Processing/Orchestrator: processor-orchestrator.service.ts.
-- Media: createWithDispatch of libs/media/src/repositories/media.repository.ts and the transaction
-- of retry of libs/media/src/application/media.service.ts. Outbox: apps/worker/src/outbox, with the
-- statements on one row, its publication, and a pass of the dispatcher (Outbox/Dispatcher). System:
-- all calls that write Media rows, in any order. Signature:
-- libs/media/src/validation/signature-detector.service.ts and the table of extension-policy.ts.
-- Validation: validateFiles of libs/media/src/validation/media-validation.service.ts, with the file
-- names and declared types of extension-policy.ts and mime-policy.ts (Validation/Names) and its
-- data and errors (Validation/Uploads); Validation/Accepted is about one upload and
-- Validation/Batch about a request. Inspection: the inspectors beside it. Inspection/Formats,
-- Documents and Numbers: the tables, validateDocument and the comparisons of
-- av-inspector.service.ts; Inspection/Probe: the events of its ffprobe process; Inspection/Images:
-- image-inspector.service.ts. Posts: libs/posts/src/application/posts.service.ts and
-- libs/posts/src/queries/post-list-query.ts. Posts/Create: create-post.service.ts, and
-- Posts/AddMedia: add-post-media.service.ts; the two share Posts/Promotion, the upload of the
-- originals and the rows that are written for them, and Posts/Requests, the way from the key to the
-- answer. Media/Presenter and Posts/Presenter: the responses. Idempotency/Fingerprint:
-- idempotency-fingerprint.ts and fingerprint-files.ts. Processing/Artifacts: what
-- media-queue-consumers.service.ts publishes. Configuration:
-- libs/configuration/src/environment.schema.ts, with the readers of one setting
-- (Configuration/Readers), the sections, and their reading in the order of the fields. Examples:
-- concrete states and runs.
--
-- How the code is read. A state of the database is a record of table states, a transaction a
-- function on it, and a statement is atomic. What other processes do between two statements is a
-- parameter where a use case is made of several (`Env.before`, `meanwhile`, the processor of a
-- job). A clock, a fresh id and a random number are arguments. A call that throws returns `err`
-- with a DomainError, or `thrown` with the message. Dates are milliseconds, and text that is cut or
-- searched is a list of code units. The back-off takes its random number as a fraction and computes
-- exactly, without the rounding of floating point.
--
-- Bounds and fuel. `acquire` repeats while its row is deleted between its insert and its read; its
-- fuel counts these rounds, and one round is enough where nobody deletes. The loop over EBML
-- elements has as much fuel as there are bytes, which never runs out. The loop of the dispatcher
-- over its batches has as much as there are dispatches, which is enough where a batch has at least
-- one. The events of a probe are a list of any length.
--
-- Not modelled. The media that a read of a post includes, and the filter of the post list. ORDER
-- BY, LIMIT and SKIP LOCKED of the outbox claim: the ids that they select are an argument. Failures
-- of the database other than unique violations and a transaction that does not commit. The
-- inspectors and the checksum are an interface of Validation. toLowerCase, toISOString, JSON.parse,
-- `Number` of a text with a fraction, the printing of a number, the stable text of a fingerprint
-- and its SHA-256 are arguments. Controllers, heartbeat, shutdown, the processors, the MinIO and
-- BullMQ clients, sharp and FFmpeg.
pub mod Common
pub mod Database
pub mod Domain
pub mod Configuration
pub mod Queues
pub mod Idempotency
pub mod Storage
pub mod Schema
pub mod Processing
pub mod Media
pub mod Outbox
pub mod Posts
pub mod Signature
pub mod Validation
pub mod Inspection
pub mod System
pub mod Examples
