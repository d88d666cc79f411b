-- ===== src/Lib.antt =====
-- The context planner of the scanner: which of the files that discovery found are read for a report,
-- in which order, within which quotas, and how much of the context each may fill.
--
-- The scanner (rust/scanner_core, with the contract types of rust/scanner_contract and the worker's
-- types of rust/worker_contract) turns discovered files into one bounded Markdown context. Stage A of
-- the plan routes each file by its extension and the profile and hands out candidate slots and
-- classification pages; a PDF classifier answers whether a PDF has text; stage B admits files against
-- the character budget; parsers build texts with their audits; each result is decided by its status;
-- and the renderer writes sections that must fit what stage B reserved. Every run is a row of the
-- store, which one lease guards: a client begins a run, beats while it works, and finalizes it; a lease
-- that is over is reclaimed by the next client.
--
-- Which file models which part:
--   Contract       rust/scanner_contract/src/lib.rs: profiles, statuses, diagnostics and decisions;
--                  each `impl Validate for X` is a function `validate_x` into a result.
--   Nominal        rust/scanner_core/src/nominal.rs: the one sort key, and its derived order.
--   Budget         rust/scanner_core/src/budget_model.rs: section maxima (Sections), the model, its
--                  reservations and its admission test (Model), the omitted summary plan (Omitted).
--   Planner        rust/scanner_core/src/classifier.rs (Classifier) and planner.rs (Plan): the parse
--                  plan, and how its classifier relates to that of the admission plans (Mirror).
--   Admission      rust/scanner_core/src/admission.rs: stage A (Routing, Classification) and stage B
--                  (Content). `ClassificationPlan::build_with_remaining` and
--                  `ContentAdmissionPlan::build_with_remaining` keep their name, each in its module.
--   Audit          rust/worker_contract/src/content_audit.rs: the data of an audit (Types), its
--                  validation (Validate) and `AuditTextBuilder` (Builder).
--   Decision       rust/scanner_core/src/decision.rs: evidence, its validation, `decide_files`.
--   Rendering      rust/scanner_core/src/compressor.rs: excerpts (Excerpt), fixed sections and the
--                  section of a file (Sections), the summary of omitted files (Summary), and
--                  `build_context` (Building, Context).
--   Allocation     rust/scanner_core/src/source_allocation.rs: pieces (Pieces), their rank (Priority),
--                  blocks (Bundles), the order of the files (Order), the rounds (Rounds) and the
--                  excerpts (Excerpts); the vectors by file are one list of slots.
--   RunStore       rust/scanner_core/src/store (types.rs, lease.rs, runs.rs, retention.rs): the tables of
--                  runs, attempts and the lease (Types), SQL on rows (Rows), the lease (Lease),
--                  `begin_run` (Begin), the other operations (Operations), and the step relation of
--                  any clients at any times (Steps). An operation takes the tables and returns them
--                  only where the transaction commits.
--   Deadline       rust/scanner_core/src/deadline.rs: the deadlines of a run.
--   Prelude        lists, texts, words, decimals, results, orders and the stable sort.
--   Examples       tests and instances of the theorems.
-- The other files of a folder hold the proofs about its definitions.
--
-- How the code is represented: a `String` is the list of its Unicode scalar values, a `u64` is a
-- natural number. Saturating and checked operations are written out (Prelude/Words), so a theorem that
-- needs a value to be a `u64` says so. Sums of lengths of texts in memory do not reach 2^64 and are
-- plain sums. A loop over a vector is a recursion on the list, with its counters as arguments, and an
-- operation that mutates `self` returns the new state. A function of `Result` returns `ok` or `err`,
-- and `?` is `>>=` or `>>`. `sort_by_key` is an insertion sort, which is stable as the standard
-- library's sort is. There are two fuels: twenty for decimal digits, as many as a `u64` has
-- (Prelude/Decimal), and for the rounds of the allocation one for each block and two more, which
-- Allocation/Terminates shows to be enough.
--
-- What enters as a parameter: `str::to_lowercase`, `str::trim` and `str::trim_end`, the length of an
-- audit's JSON encoding (`encoded_len`), the domain-separated SHA-256 of a request, the random owner of
-- a run, the comparison of a stored engine fingerprint with the envelope, the results of the PDF
-- classifier by file identity, and what the clock reads. Two theorems have a condition on them: the
-- one on finished audits that the encoding is small enough, and the one on admitted files that
-- `trim_end` never makes a text longer.
--
-- What is not modelled: the wire formats of serde; the archive writer behind `AuditTextBuilder`; the
-- scheduler; of the store the caches, artifacts, inventory and metrics, the choice of the runs that
-- retention deletes, the validation of a batch before the terminal transaction, and the envelope that
-- is rebuilt from the stored metadata; worker processes, discovery and the parsers, which are I/O or
-- calls of other libraries; and the report application.
pub mod Prelude
pub mod Nominal
pub mod Deadline
pub mod Decision
pub mod Audit
pub mod Rendering
pub mod RunStore
pub mod Planner
mod Examples
pub mod Admission
pub mod Budget
pub mod Contract
pub mod Allocation
