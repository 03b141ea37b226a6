-- ===== src/Lib.antt =====
-- The parts of Excel Flow that decide who works on what and what is kept, in the order of a run.
--
-- Excel Flow audits, compares and merges product workbooks. Its web processes write jobs to a
-- database; worker processes on other machines take them under leases, and a recovery scan takes
-- back what a lost worker held. An audit finds the columns of a sheet, compares each record with its
-- standard, and plans repairs. The handlers of the workflow map the columns of a sheet to the
-- fields of a catalogue and the categories of its rows to those of the platform, match a
-- merchant's products with those of the platform, and build the summary.
--
-- Modelled are the two lease protocols, the limits on what runs at once and the store of the
-- workflow's objects; the header mapping of an audit and its loops over matched and missing
-- records; the logins and sessions of accounts; the two mappings of the catalogue; the matching and merging of products; and the
-- spilled sequence that holds what is too much for memory.
--
-- Files, and the code that each is about (paths from the root of the repository):
--   Sql               the tables: sqlalchemy and the database engine are the parameter `SqlTable`,
--                     with the documented meaning of SELECT and UPDATE as laws. Sql/Rows has the
--                     lists of rows, Sql/Memory a table held in memory, which meets the laws.
--   Worker            src/excel_auditor/worker_control.py, over the columns of ComparisonJobRow
--                     (src/excel_auditor/persistence.py) that it reads or writes. Each method is the
--                     function of its name; `_finish` is `finish`, `_payload` is `payload`, and the
--                     loop of `requeue_expired` is `requeue_all` with `requeue` for one round.
--                     Worker/Effects and Worker/Requeue: the table after each call. Worker/Machine:
--                     interleavings. Worker/Lifecycle and Worker/Leases: what holds through them.
--   Workflow          the tables of src/excel_auditor/workflow/repository.py
--   Workflow/Capacity src/excel_auditor/workflow/capacity.py: `owner`, `active_query` (as
--                     `active_actor`, `is_active` and `active_count`), `admit` and `can_run`
--   Workflow/Resources
--                     `ResourceLease` of the same file: `acquire`, one round of `_heartbeat`, `close`
--   Workflow/Leasing, Workflow/Executions, Workflow/Dispatching
--                     src/excel_auditor/workflow/execution.py: what `ExecutionService` tests and
--                     writes, and its methods `claim` (with `take` and `settle` for its second half),
--                     `heartbeat`, `finish`, `_fail_object`, `recover` and `dispatch`, whose loop is
--                     `dispatch_rows` and whose transactions are `prolong` and `offer`.
--                     Workflow/Executions/Outcomes and Workflow/Dispatching/Rounds tell what becomes
--                     of a row by what holds of it before.
--   Workflow/Store    `WorkflowStore` of src/excel_auditor/workflow/repository.py: `get` (as
--                     `get_object`), `create`, `schedule`, `fence`, `claim` and `save`; what they raise
--                     is an `Outcome`
--   Products          the records of src/excel_auditor/product_workflow/merchant_models.py
--   Products/Template src/excel_auditor/product_workflow/fixed_template.py, the table of the fields
--   Products/Matching src/excel_auditor/product_workflow/product_matcher.py
--   Products/Merging, Products/Reconciling
--                     src/excel_auditor/product_workflow/reconciler.py
--   Audit             the rules, differences and repairs of src/excel_auditor/models.py and
--                     src/excel_auditor/engine.py; Audit/Values: `_safe_value`, `_excel_write_safe`,
--                     `_excel_write_value` and `_should_insert_missing`
--   Audit/Headers     `map_headers` of src/excel_auditor/engine.py, from the values of the header row
--   Audit/Matched     src/excel_auditor/engine.py: the loop of `_compare_records` over the matched
--                     records (`compare_matched`), with `compare_field` for one column of one pair.
--                     Audit/Matched/Permits says which repairs the rules of a sheet permit.
--   Audit/Keys        `_key` (as `key_of`), `_business_key` and, of src/excel_auditor/normalization.py,
--                     `parse_row_number`; Audit/Keys/Collecting: the dictionaries by key
--   Audit/Rows        src/excel_auditor/engine.py: the loops of `_compare_records` over the rows of a
--                     worksheet (`read_rows`, with `row_key` for one row) and over the duplicate keys
--                     (`drop_duplicates`)
--   Audit/Standards   the same for the records of a standard that is held in memory
--                     (`read_standards`, `drop_standards`)
--   Audit/Joining     how the keys of both are divided, in memory (`join_in_memory`) and by the
--                     partitioned connector (`join_partitioned`)
--   Audit/Partitions  src/excel_auditor/partitioned_join.py
--   Audit/Extra       the loop of `_compare_records` over the records that only the workbook has
--                     (`report_extra`)
--   Audit/Missing     the same function's loop over the records that only the standard has
--                     (`append_missing`)
--   Records           src/excel_auditor/record_store.py: `DiskBackedRecordMap`; the dictionary that it
--                     stands for is in Records/Changes
--   Auth              the tables of accounts, sessions and failures of
--                     src/excel_auditor/persistence.py, and `normalize_username`
--   Auth/Limits       src/excel_auditor/auth_limits.py: `LoginLimiter`, with `count_rows` and
--                     `increment_rows` for its table
--   Auth/Service      src/excel_auditor/auth_service.py: `login`, by cases `login_as`,
--                     `try_password`, `accept_password` and `reject_password`
--   Auth/Sessions     the other methods of `AuthService`: `validate_session`, `validate_csrf`,
--                     `issue_csrf`, `logout` and `revoke_all`
--   Catalog           what the two following share, and `normalize_header` of
--                     src/excel_auditor/models.py
--   Catalog/Headers   src/excel_auditor/product_workflow/mapping.py: `map_product_headers`, whose loop is
--                     `map_headers`, with `map_owned` for the cases of a header's owners
--   Catalog/Categories
--                     src/excel_auditor/product_workflow/category.py: `resolve_categories`, whose loop
--                     is `resolve_rows`, with `resolve_id`, `resolve_unknown` and `resolve_name` for
--                     the cases of a row. Catalog/Owners and Catalog/Bearers: the index of names.
--   Sorting           the stable sort of Python
--   Spill             src/excel_auditor/spill.py: `_SpilledObjects` is `SpilledObjects`, with its methods
--                     as `spill` and `fetch`; `SpillableSequence` has `append`, `extend`, `get_item`
--                     and `len`
--   Prelude           the names, tests and list functions that the others share
--   Tests             runs of the code on concrete tables
--
-- Conventions. A transaction is a function of the contents of the tables; an exception in it
-- leaves them as they were. A call takes one reading of the clock, in seconds, and the token that
-- uuid4 draws, as arguments. A comparison with NULL holds of no row. Loops run over the rows that
-- a query has returned, so that they end without fuel. Scores are counted in units of which 100
-- has `full_score`; the fuzzy score, Unicode normalisation, the number format and the kinds of
-- cell values are the parameter `Cells`. The names of an execution's operations are the five that
-- the code schedules. A negative match threshold is a constructor of `Threshold`.
--
-- The columns and categories of a catalogue are mapped with Unicode normalisation, `str` and
-- rapidfuzz's `extract` as the parameter `Names`; of `extract` it is used that it returns some of
-- the choices. A set of ids is the list of its ids without repetition, in the order in which they
-- came.
--
-- The functions of src/excel_auditor/normalization.py that parse and compare cells are the parameter
-- `Parsing`, and what the engine takes from openpyxl, `str` and the supply of identifiers is the
-- parameter `Engine`. Nothing is assumed of either but, for the pairing by key, that `==` of values is
-- an equality (`IsEquality`). The columns of a sheet have distinct names and the fields of its key
-- have columns, as the validator of `SheetRule` ensures. What polars and `json.dumps` do for the
-- partitioned connector is the parameter `Frames`; `IsJoining` says which rows its joins list, in any
-- order. The order of a set of keys is that of insertion.
--
-- The authentication takes argon2, hashlib, hmac and the folding of names as the parameter `Secrets`
-- and redis as `Redis`, of which nothing is assumed. The token and the identifier of a new session
-- are arguments of `login`, and one reading of the clock serves a whole call; an empty tenant is
-- replaced before the call. What INSERT does to a query that met no row is `IsInserting`.
--
-- Of the record map, pickle and the text of a key are the parameter `Pickles`. The refused INSERT of a
-- key that is there is the query for that key, since the text is the primary key, and a commit
-- changes no query of the same connection. `IsStoring` is what INSERT does to a query of one row.
--
-- The queue that `dispatch` is given is the parameter `Queue`, whose answers are arbitrary; rows with
-- the same `available_at` come in the order of the table. Pickle is the parameter `Pickle`; a
-- temporary file is its bytes and one position.
--
-- Not modelled: the search summary, the audit rows and the directories of `WorkflowStore`; of
-- `_compare_records` the validation of cells and across fields, the branch
-- of a standard on disk (`SpilledRecords`, or EXCEL_AUDITOR_DISK_RECORD_THRESHOLD records and more),
-- whose `DiskBackedRecordMap` takes keys of one text for one and is modelled by itself, the texts of
-- messages and the counts of the summary; the passing on of the divided keys to the three loops over
-- records, which are given what each key stands for; `execute` and the process loops of
-- src/excel_auditor/workflow/execution.py, the threads of `ResourceLease`, the passing on of
-- `discovered_sheets`, the reading and writing of workbooks, and HTTP. Of a spilled sequence:
-- negative indices, slices, `on_append`, `finish` and `close`; of the record map the same negative
-- indices, `__iter__` and `close`.
pub mod Prelude
pub mod Sql
pub mod Sorting
pub mod Spill
pub mod Worker
pub mod Workflow
pub mod Products
pub mod Audit
pub mod Auth
pub mod Records
pub mod Catalog
pub mod Tests
