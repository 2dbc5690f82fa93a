-- ===== src/Lib.antt =====
-- Outbox service: receives events over HTTP, routes each to the destinations of its type, delivers
-- it with retries, and computes metrics from it by compiled plans. This library models the parts
-- that decide what is stored and what is sent.
--
-- The parts and their files:
--
-- - Delivery: app/worker.py (`deliver_one_delivery`, `persist_delivery_failure`,
--   `deliver_pending_deliveries`, the two delays), app/services/delivery_service.py,
--   app/repositories/event_delivery_repository.py and app/services/dead_letter_service.py.
--   Model has the rows and the settings, Service the request, Repository the queries, Retry the
--   delays, Worker the attempts and their failures, DeadLetters the release of dead letters; the
--   other files are proofs. A `World` holds the tables, the requests that were sent and the runtime
--   events that were published; an `Attempt` says how the request, the publications and the commits
--   of one attempt end, so that each may fail.
-- - Routing: `route_received_events` and `_route_materialized_event` of app/worker.py with the queries
--   of app/repositories/event_repository.py and app/repositories/route_repository.py (Worker). It
--   calls Execution's materialization and makes the rows that Delivery works on; a `Round` says how
--   the savepoint of one event ends.
-- - Execution: app/services/processing_plan_provider.py (Provider),
--   app/repositories/metric_execution_repository.py (Repository), the two services of
--   app/services/metric_runtime_service.py (Materialization, Service) and
--   `process_metric_plan_executions` of app/worker.py (Cycle). A `Store` holds the tables; a
--   savepoint that is rolled back keeps the attempt and drops the observations.
-- - Cardinality: app/services/metric_cardinality_service.py (Estimate, Assess) and the two name
--   functions of app/metrics_engine/prometheus_renderer.py (Names), on JSON documents (Json).
-- - Chains: app/services/processing_chain_builder_service.py (Builder),
--   app/services/processing_chain_activation_service.py (Service for its helpers, Activation for
--   `rebuild_chain` and `activate_chain`) and the repositories of chains, plans, versions and
--   compatibilities (Repository). It asks Cardinality for the budget, and the chain that it activates
--   is the one that Execution materializes.
-- - Aggregation: app/services/metric_state_aggregation_service.py (Service),
--   app/repositories/metric_state_repository.py (Repository), app/metrics_engine/counter_value.py
--   (Values), `normalize_observation_business_labels` (Labels) and
--   `aggregate_prometheus_metric_state` of app/worker.py (Worker). It reads the log of observations
--   that Execution writes. Reached has the steps of the tables: new observations, whose ids become
--   visible in their order, and cycles with failures of the database. The limit of 1000 observations
--   for a stream is the worker's.
-- - Rendering: the rest of app/metrics_engine/prometheus_renderer.py (Escape, Labels, Render,
--   Legacy) and app/services/prometheus_metric_state_service.py with its query (Service). It reads the
--   states that Aggregation writes; Isolation is about the two together.
-- - Metrics: app/metrics_engine/json_path.py (Paths), schema_graph.py and schema_path_resolver.py
--   (Schema), metric_yaml_parser.py and metric_yaml_validator.py (Yaml), metric_plan_compiler.py
--   (Compiler) and observation_extractor.py (Extractor; its Direct has `extract_observations`), all
--   of app/metrics_engine. Conforms says when a document fits a schema graph and what JSONPath
--   finds along the plain paths that the schema resolves; of other paths nothing is assumed. The
--   compiler's documents are what the extractor reads, and what Cardinality estimates.
--   Service is app/services/metrics_extraction_service.py, the extraction that Execution calls, and
--   Compile is app/services/metric_yaml_service.py, the compilation that Chains calls.
-- - Projects: app/services/project_service.py (Service), app/services/project_member_service.py
--   (Members), their repositories, and the permissions of roles with `has_project_permission` of
--   app/services/auth_service.py and `require_project_permission` of app/dependencies.py
--   (Permissions). Changes has the requests as steps, one finished before the next reads;
--   Overlap has two that run at the same time, as the source takes no lock.
-- - ApiKeys: app/services/api_key_service.py with app/repositories/api_key_repository.py (Service).
-- - Prelude: results, lists, tables of rows with `WHERE` and `ORDER BY`, and texts.
--
-- A Python exception is the error of a `Result`; where the code catches and continues, the model
-- passes on the state that the rollback leaves. A table is a list of rows in the order of insertion,
-- a flush of a changed row is `put_row`, and one operation runs at a time, as the row locks and unique
-- keys order most of them. Times are microseconds.
--
-- Parameters stand for what the repository does not contain: the reply to a request, `urlsplit`,
-- the environment, random numbers, floats with their exact sums (`Floats`, `IsExact`), hashes,
-- `json.dumps`, JSONPath, the loader of YAML, the text of an exception or of a number (`Formats`),
-- the lower case and the order of texts, the rows that other sessions lock, and the moments at
-- which the database fails: of a commit, of the insert of an observation (`Runtime.insert_error`)
-- or of the flush at the end of a savepoint (`Runtime.release_error`). Four parts of the
-- repository are parameters of their clients: the compilation of YAML plans (`Tools.compile`) and
-- the extraction of observations (`Runtime.extract_for_plan`), which Metrics fills in, the delay
-- before a plan is tried again (`Runtime.retry_delay`) and the analysis of schemas
-- (`CardinalityService.analyze`).
--
-- Loops are recursion on the list that they walk, without fuel: `process_metric_plan_executions` walks
-- the list of its turns, as many as its batch, each with its time and with whether its commit and its
-- publication succeed.
--
-- Not modelled: the HTTP interface, the scheduler and its threads, the configuration file's
-- parsing, passwords and tokens, the migrations, and of the metrics the building of definitions
-- by the builder, their propagation to new schema versions and the older extractor.py.
pub mod Prelude
pub mod Delivery
pub mod Execution
pub mod Json
pub mod Metrics
pub mod Cardinality
pub mod Chains
pub mod Projects
pub mod Rendering
pub mod Routing
pub mod Aggregation
pub mod ApiKeys
