-- ===== src/Lib.antt =====
-- A model of the reporting platform's decisions about data: what is kept, what may be published
-- and what has been shown of the migration from the legacy estate.
--
-- Parts. `Calendar` follows reporting_platform/common/calendar_rules.py: `month_end_dates`,
-- `keep_set` and `expire_set` under their own names, the loop of the first in `group`.
-- `Lifecycle` follows reporting_platform/registry/lifecycle.py: `Lifecycle/Registry` has the rows
-- of the database that it reads and writes and what the dbt exposures declare of a report
-- (`report_owner` and `restatement_policy` of reporting_platform/common/context.py),
-- `Lifecycle/Transitions` has `state`, `transition`, `lock` and `reopen`, `Lifecycle/Inputs` has
-- `inputs_changed`, and `Lifecycle/Gate` has `check_publishable`. The other modules of each
-- folder hold proofs. `Migration` follows reporting_platform/migration: `Migration/Comparators`
-- has the strategies and `worst_outcome` of comparators.py, `Migration/RowHashes` has its row
-- hash, `Migration/Acceptance` has `_latest_per_date` and `_evaluate` of acceptance.py, and
-- `Migration/Correlate` has `correlate` of correlate.py. `Retention` follows
-- reporting_platform/retention/retention.py: `Retention/Windows` has `tag_retention_years` and
-- `class_keep_years` of reporting_platform/common/context.py, `Retention/Interlock` has
-- `check_reproducibility_window`, `Retention/References` has the names of tags and the loop of a
-- sweep, and `Retention/Sweeps` has `expire_tags`, `expire_snapshot_tags` and
-- `clean_working_branches`. `Completeness` follows `find_gaps` and the exit code of
-- reporting_platform/monitoring/completeness.py. `Transport` follows
-- reporting_transport/contract.py: `Transport/Paths` has the validators and the keys,
-- `Transport/Parse` has `_parse_file` and `_parse_files`, `Transport/Document` has
-- `Transport.as_dict` and `serialize_transport`, and `Transport/Marker` has `parse_transport`.
-- `Transport/LocalFiles`, `Transport/Uploads` and `Transport/Publisher` have
-- `_ordered_local_files` and `publish_transport_result` of reporting_transport/publisher.py. The
-- publisher works on a bucket through the record `Storage`, whose promises are `IsStorage` of
-- `Transport/Durable`: they leave room for other publishers that add objects between any two
-- calls. `Transport/Refined` fills that interface: `Transport/Tuning`, `Transport/Evidence` and
-- `Transport/Uploading` have the configuration, the checks of evidence and the uploads of
-- reporting_transport/storage.py, over the records `Client` and `Digest` of `Transport/Client`,
-- whose promises are `IsClient` and `IsDigest` of `Transport/Stored`. `Filenames` follows
-- reporting_platform/common/filenames.py and `Feed.parse_filename`: `Filenames/Patterns` has
-- `_closing_paren` and `stem_pattern`, `Filenames/Render` has `render_filename` and
-- `literal_from_regex`, and `Filenames/Claims` has `claims_control_file`;
-- `Retention/LandingNames` and `Retention/Landing` use it for `_cob_date` and `sweep_landing` of
-- reporting_platform/retention/landing.py. `Retention/Ready` follows
-- reporting_platform/retention/ready.py, and `Retention/Quarantine` follows
-- reporting_platform/retention/quarantine.py. `Lateness` follows
-- reporting_platform/monitoring/lateness.py, with its query over the rows of the deliveries.
-- `Delivery` follows the first interpretation of a transport: `Delivery/Control` and
-- `Delivery/Values` have `read` and `value` of reporting_platform/ingest/control.py, and
-- `Delivery/Identity` and `Delivery/Resolve` have `resolve_transport_feed` and
-- `resolve_business_identity` of reporting_platform/ingest/delivery.py. `Common` has what the
-- parts share: `==` and `in` by decisions, ordered values and `sorted`, dicts in insertion order,
-- `str.strip`, dates, and results of code that may raise.
--
-- State. A database is a record of lists of rows, the newest first; an insertion returns the new
-- record, and the stamps that the database hands out are arguments. A query is a function of the
-- rows that follows the text of its SQL. Dicts are association lists, sets are lists without
-- duplicates, and an exception is the error case of a result. Every loop recurs on a list but for
-- the scans of a pattern, which advance by a group or an escape at once and run on fuel: one more
-- than the pattern's length, which is never used up (`Filenames.Fuel`), and for the pieces that a
-- file is read in, which have the file's length as fuel (`Transport.Chunked`). Numbers are
-- natural numbers, since the configuration's counts are never negative, but for the settings of
-- an upload, which are integers until they have been checked.
--
-- Not modelled: the concurrent upload of parts (they are sent in order, one at a time), log lines
-- and the wording of messages (an error carries its case), connections to Postgres, S3, Nessie,
-- Spark and Airflow, and the parameters: `str.lower` with its Unicode table, SHA-1 with its
-- encoding, the encoding of JSON, `date.isoformat`, the arithmetic of floats, the parsing of
-- times, the clock and the answer to a deletion (the record `Platform` of `Retention/Sweeps`), the digits of a pattern's
-- `\d`, the matching of a feed's patterns by `re` (the records `Python` and `Matcher` of
-- `Filenames`), the search and the rows of a control file (the record `Readers` of
-- `Delivery/Control`), the listing of a bucket, the start of a day, and `feeds_behind_report`,
-- which walks the dbt project.
pub mod Common
pub mod Calendar
pub mod Lifecycle
pub mod Tests
pub mod Migration
pub mod Retention
pub mod Completeness
pub mod Transport
pub mod Filenames
pub mod Lateness
pub mod Delivery
