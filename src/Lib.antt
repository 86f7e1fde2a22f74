-- ===== src/Lib.antt =====
-- AMLGuard, an assistant for anti-money-laundering investigations: a model of its core, and what
-- holds of it.
--
-- An alert of the monitoring opens a case of one tenant. A graph of nodes loads the evidence through
-- tools that are scoped to the case, retrieves the policies that apply, asks a language model for a
-- recommendation, validates its citations and the security events, and waits for a person: for
-- information, or for a review that approves, edits or rejects. The repository stores the cases and
-- an audit chain linked by hashes. A failed control or a critical event blocks the release.
--
-- Where each part is, with the source it translates:
--   Domain         src/amlguard/domain/models.py and enums.py; the case record of tools/repository.py
--   Simulation     src/amlguard/simulation/models.py, the records of the synthetic bank, and the rules
--                  of alert_rules.py
--   Auth           src/amlguard/auth/case_access.py, and the role test of auth/dependencies.py
--   Governance     src/amlguard/governance/hard_blocks.py and audit_chain.py
--   Evidence       src/amlguard/evidence/ledger.py
--   Tools          src/amlguard/tools/repository.py (Tools.Repository), service.py and
--                  authorization.py (Tools.Service); postgres_repository.py (Postgres) over the rows
--                  of db/models.py (Records)
--   Policy         src/amlguard/policy/models.py, retrieval.py and applicability.py
--   Graph          src/amlguard/graph/state.py and builder.py: the nodes (Nodes), the control
--                  validation (Controls), the edges and interrupts (Flow), the selection of policies
--                  (Selection), and the engine of service.py over the checkpointer's threads (Engine)
--   Api            src/amlguard/api: the job store of progress.py (Progress), the bodies of schemas.py
--                  (Schemas), and of app.py the state and its requests (Http), the access to a case
--                  and the home page (Access), the JSON routes (Routes) and the pages (Pages)
--   Experiments    src/amlguard/experiments/queue.py, the in-memory queue (Queue) and the one over the
--                  tables of db/models.py (Postgres), with the models of domain/experiments.py
--   Prelude        exceptions, actions on a state, dictionaries, sets, triples and invariants
--   Samples        a small bank and case for the witnesses, which stand in the Tests modules
--
-- A method that mutates is an action: it takes the state and returns a result, a value or one
-- constructor of Exception for each place that raises, with the state that it leaves, so that what
-- was written before a raise stays written. The graph's nodes act on a World: the tools with their
-- repository, the events sent to the trajectory hook, and the number of calls of the model provider.
-- A run of the graph goes from START, or from the node that waits, to the next interrupt or the end;
-- no node occurs twice in a run, so that no fuel is needed, and all recursion is structural.
--
-- Parameters of the model: the SHA-256 digest of canonical JSON, the dumps of pydantic, the text of
-- a decimal, the language model (any recommendation or exception, for each call), the trajectory
-- hook (it may raise at any event), the identifiers that uuid4 and uuid5 draw, the clock and the
-- shuffle of the experiment queue, Python's str of a JSON value, and the parsing of dates, decimals
-- and JSON. In the theorems about the runs of the graph the selection of policies is any function of
-- the evidence that returns or raises; Graph.Selection defines the one of the code.
--
-- What LangGraph does beside running the graph is a parameter of the engine, the record Runtime. A
-- request of the web application is an action on the application's state that is answered with a
-- value or the status of an error; requests run one after the other, and the coroutine behind a
-- progress page is queued and run as a step of its own.
--
-- Dates are day numbers; amounts natural numbers of cents, in the experiments of millionths of a
-- euro; JSON numbers natural numbers, UUIDs their texts. A keyword score is kept as the pair of its
-- counts; one search compares scores of one denominator. Spans, metrics, log lines, durations and
-- the progress hook are left out: the code suppresses or ignores what they return.
--
-- A call of the Postgres queue or repository is a transaction that an exception rolls back, and the
-- transactions run one after the other, as the row locks of the source make them. The costs of a job
-- have six decimals; the accounts of its experiment are rounded to four at every update, as their
-- columns are.
--
-- Not modelled: the loader of policies, the reads of the bank's tables, the routes of login, health,
-- traces and experiments, the worker, the generator and the injection of the simulation, the evaluation, and
-- telemetry.
pub mod Prelude
pub mod Domain
pub mod Auth
pub mod Governance
pub mod Evidence
pub mod Simulation
pub mod Tools
pub mod Policy
pub mod Graph
pub mod Experiments
pub mod Api
pub mod Samples
