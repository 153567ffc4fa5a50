-- ===== src/Lib.antt =====
-- DocTrack: office hours, accounts and the tracking of documents between offices.
--
-- The program is a Django application. An office drafts a record (apps/tracking), routes it in
-- batches of steps to other offices, which confirm receipt, work on it, forward or complete it.
-- Accounts (apps/accounts) have one of four roles and an office; a table of restrictions takes single
-- capabilities away. Deadlines come from a table of rules per office and document type, elapsed time
-- is counted in office hours (apps/core/business_time.py).
--
-- Documents that leave for outside offices have a tracker of their own, with a custody ledger of which
-- some facts are only reported and may be corrected later.
--
-- The files and the code they model:
--   Base: tests, lists, results of fallible calls, texts and the digits of numbers.
--   OfficeHours: apps/core/business_time.py. Schedules and holidays, `business_seconds_between`
--     with its loop over days (`walk`), `working_day_seconds`; Scope has the context variable of
--     `office_schedule_context` and `load_holidays`; Window and Seconds count the same time second
--     by second, Laws compares the two; Loop has the loop without a bound on its turns.
--   Accounts: apps/accounts/models.py, the roles and what they may administer. Capabilities:
--     apps/accounts/capabilities.py and `active_writer` of apps/core/permissions.py. Restricting:
--     its `set_restrictions`. Overlay, Administration and Restricting/Written have what they
--     promise. Otp: apps/accounts/otp.py and `allow_sensitive_request` of apps/core/security.py,
--     one pending sign-in with its codes; Laws and Limits are about it. Lockout:
--     apps/accounts/axes_hooks.py, the escalating lockouts with their cache, which a reader may
--     fill with an answer that a write has overtaken; Reads and Coherent are about the cache,
--     Frozen about a lockout while it lasts, Escalated about one lockout after the other.
--   Tracking: apps/tracking/models.py, the record with its steps, timeline and grants, custody and
--     `recalculate_status`. Stage: `with_stage_for`. Access: `visible_to` and the `can_user_…`
--     tests. Deadline: the overdue filters and `deadline_state`. Directions: the direction counts
--     of apps/tracking/services.py. Sla, Numbers: the rule table and the tracking numbers of
--     apps/tracking/services.py. Notices: apps/core/notifications.py.
--   Tracking/Services: the mutations of apps/tracking/services.py. Each takes the desk (the record
--     and the tables it writes), what it reads (Env) and the account, and returns a desk or the
--     exception. Route, Receive and Work have `route_record`, `confirm_receipt`, `add_remark`,
--     `mark_in_process`, `complete_record` and `reopen_record`, Share has `grant_access`, each as
--     its checks in the code's order and what it then writes; Reading has `log_view` and
--     `log_print`. Authority inverts the two decorators. Summary, History, Batches, Undo, Button
--     and Share/Granted are about single services, Run about any sequence of calls.
--   Tracking/External: apps/tracking/external_models.py, the custody ledger of a document that
--     leaves for outside offices, who sees, manages and acts on it. Calls: `_mutation` with its
--     expected revision, `_actual`, `_text`, `_event` and `_latest_actual` of
--     apps/tracking/external_services.py; Moves: `route_record` and the two receipts; Work:
--     remarks, external work, completion, reopening and annotations; Correct: `correct_step`;
--     Creation: `create_record`. Run is any sequence of these calls, each prepared from some
--     revision. Run/Guarded inverts the decorators. Run/Chain says when a ledger is sound, Times,
--     Sent, Received, Changed, Replaced, Latest, Accepted, Corrected and Ledgers are about
--     soundness, Trace, Traces and Revisions about what a call leaves behind, Confirmed about a
--     receipt that is due, Kept and Witnessed about corrections and Created about new records.
--   Documents: apps/documents/models.py, a stored document, `visible_to` and the `can_user_…`
--     tests. Review: `review_document_deletion` of apps/documents/services.py and which documents
--     `purge_deleted_documents` of apps/documents/tasks.py takes; Lifecycle is about both.
--   DocumentTypes: `resolve_document_types` of apps/core/document_types.py.
--   The Sample and Examples modules run the definitions on small data.
--
-- How state is modelled: a service runs in one transaction on the locked row, so a call is a function
-- from a desk to a result, and an exception leaves the desk as it was (`or_before`). Concurrent calls
-- on one record are serialised by that lock and appear as a list of turns, each with its own Env:
-- the clock, the account table and the restrictions may change in between. Times are microseconds on
-- the wall clock, numbers are natural; where the code subtracts, the model's subtraction is exact or
-- is the `max` with 0 that the code writes. A user is both the row and the object that a caller holds;
-- the decorators reload the row.
--
-- Bounds and fuel: `walk` takes as fuel one more than the days that its loop visits, which is enough
-- to reach the loop's end. `decimal_fuel`, which prints a number's digits, takes one more than the
-- number, which has no more digits than that. No other definition takes fuel. Texts are lists of code
-- points, cut where the code cuts them.
--
-- Not modelled: of external tracking attachments and edits of the directory of outside offices; of
-- the documents repository uploads, metadata, filing, file versions, extraction, tagging and the
-- purge's deletions; search, the opening of one-time challenges, analytics, pages and forms, and of
-- the tracking services drafts, attachments, filing, bulk receipt and the queues. Columns that no
-- modelled rule reads are left out, as are notification links and the extra data of the audit log.
-- The calendar and the database's ordering are written from their documentation; `strftime` is a
-- parameter (`date_text`), as are the keyed hash, the random draws and the mail server of the
-- one-time codes (`Moment`).
pub mod Base
pub mod OfficeHours
pub mod Accounts
pub mod Tracking
pub mod Documents
pub mod DocumentTypes
