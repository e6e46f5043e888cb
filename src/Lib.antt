-- ===== src/Lib.antt =====
-- A verification library for PathWise AI, an SD-WAN controller that predicts the health of WAN links
-- and moves traffic between them.
--
-- The part modelled is the control plane of the server (server/*.py) and the steering service
-- (services/traffic-steering). A handoff (server/routing.py)
-- builds a flow rule, has the sandbox (server/sandbox.py) check it on a small topology, moves the
-- sessions of the link (server/session_manager.py) and installs the rule through the adapter of the
-- SDN controllers (server/sdn_adapter.py). Accounts, lockout, tokens and roles (server/auth.py,
-- server/rbac.py) guard the handlers, and the audit log (server/audit.py) records what happened.
--
-- Files:
--   * Auth: server/auth.py. Auth/Defs has `login`, `register_user` and `unlock_user` on the dict
--     `_users`, Auth/Tokens the dependencies `get_current_user`, `get_current_user_strict` and
--     `get_ws_user`, Auth/Rbac the matrix and the checks of server/rbac.py. Auth/Store, Lockout,
--     Invariant and Register have the proofs.
--   * Audit: server/audit.py. Audit/Defs has `log_event` and `verify_integrity`, Audit/Paging
--     `get_audit_log`; Chain, Verify and Tamper have the proofs.
--   * Sessions: server/session_manager.py. The link lists hold references into a store of session
--     objects, as the Python lists do, so that a migration is seen through every reference. Sessions/Places and Refinement compare the
--     table with a map from sessions to links.
--   * Sdn: server/sdn_adapter.py, with the requests and the answers of the controllers as a list of
--     exchanges.
--   * Sandbox: the function `run_sandbox_validation` of server/sandbox.py and its stages; Sandbox/Search
--     is about the fuel of the loop search.
--   * Steering: the earlier pipeline of server/sandbox.py, `validate_steering`, for the steering
--     requests of the operator, and the history of its reports.
--   * Degrader: server/app_qos/selective_degrader.py. Degrader/Defs has the rules and their commands,
--     Degrader/Rules `start_rule`, `stop_rule`, `stop_all` and a round of the sweeper. What the
--     Windows commands do is an interpretation of the list of commands that took effect
--     (Degrader/Leftovers); Degrader/Fates says of each command sent whether it did.
--   * Qos: server/app_qos. Qos/Tiers and Qos/Signatures are the tables of signatures.py, Qos/Predict its
--     `predict_quality`. Qos/Enforcer computes the allocations of bandwidth_enforcer.py and Qos/Rules
--     the commands for them; Qos/Priorities is priority_manager.py, with the dicts of the users in a
--     store, as the log keeps references to them. Ladder, Quality, Budget, Commands, Separation, Users
--     and Refinement have the proofs.
--   * Shaper: server/traffic_shaper.py, over Qos. Shaper/Registry has its tables, Shaper/Defs its state
--     and commands, Shaper/Records the policies, Shaper/Policies `throttle_app`, `prioritize_app`,
--     `remove_policy`, `remove_all_policies` and `prioritize_over`, Shaper/Queries the queries and
--     `resolve_app_name`; Lifecycle and Enforcement have the proofs.
--   * Ibn: server/ibn_engine.py, over State, Shaper, Degrader, Sandbox and Sdn. Ibn/Metrics and
--     Ibn/Compliance say what an intent demands and where traffic is steered, Ibn/Check is
--     `check_intent_compliance`, Ibn/Shaping and Ibn/Store create, pause and delete intents, Ibn/Yang
--     writes their configuration, Ibn/Deploy is `deploy_intent` behind the parser. Verdict, Recheck,
--     Cooldown, Later, Statuses, Deletion and Deployment have the proofs.
--   * Billing: server/routers/billing.py. Billing/Defs has the plans, `upgrade_subscription`,
--     `cancel_subscription` and the totals of `admin_revenue`; Subscriptions has the proofs.
--   * Service: services/traffic-steering. Service/Engine has `evaluate` and `execute` of
--     steering_engine.py, Service/Manager a round of flow_manager.py; Best and Decisions have the proofs.
--   * State: the queries of server/state.py on routing rules and telemetry buffers.
--   * Alerts: server/alerts.py, which writes to the audit log.
--   * Routing: server/routing.py, over Sandbox, Sessions and Sdn.
--   * Prelude: shared names and lemmas, dictionaries (Prelude/Dict) and texts (Prelude/Text).
--
-- Conventions: a time is a natural number of microseconds. Each call of the clock that a result depends
-- on is an argument of its own; calls that only stamp what one operation writes may share one. `str.lower` is a parameter of the audit log, and folds
-- ASCII letters elsewhere. bcrypt, PyJWT, hashlib, json.dumps, ipaddress, the resolver, the running of shell
-- commands, Python's `round`, the formatting of floats, random draws, and
-- the answers of the SDN controllers, of Mininet and of Batfish are parameters, and what is assumed
-- of them is a hypothesis (a hashed password checks, an encoded token is not empty and decodes between the whole seconds of its issue and its expiry, a digest has 64
-- characters, a rounding is to a nearest number). Bandwidths are hundredths of a megabit per second,
-- measured values thousandths. A handler that raises returns its error with the state it leaves. Logging is left out.
--
-- Bounds and fuel: the audit log keeps 10000 entries, as the deque does. The depth-first search of
-- the sandbox runs on fuel, one more than the number of nodes and twice that of the links: each nested
-- call visits a node that was not visited. The sandbox builds topologies of two nodes and one link.
--
-- Not modelled: the seeding of users, rendering of entries and histories, the read-only queries of
-- controllers, what the iptables commands leave in place, the parser of intents, the detection of running applications, and the parts of the
-- repository outside of these files: collectors, prediction, reports, other routers, the other services and the user
-- interface.
pub mod Prelude
pub mod Auth
pub mod Audit
pub mod Sessions
pub mod Sdn
pub mod Sandbox
pub mod Routing
pub mod Degrader
pub mod Steering
pub mod Alerts
pub mod State
pub mod Qos
pub mod Shaper
pub mod Ibn
pub mod Billing
pub mod Service
