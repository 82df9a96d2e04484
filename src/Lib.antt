-- ===== src/Lib.antt =====
-- Synapse Messenger: the coordination service (synapse/service.py), its store (synapse/store/) and
-- its hybrid logical clock (synapse/hlc.py).
--
-- The program. Agents and organizations send commands to one service. A command is authenticated,
-- checked, and run as one write transaction on a SQLite database; a stamp of the hybrid logical clock
-- orders the rows that it writes to the journals. Only one transaction writes at a time.
--
-- The files.
--   Hlc            synapse/hlc.py: encode, decode, is_valid, HLC.stamp, HLC.observe (`tick`, `merge`)
--   Errors         synapse/errors.py: the error codes; the result of a call that may raise
--   Db             synapse/db.py: the tables of SCHEMA and EXTRA_SCHEMA but auth_failures
--   Store          synapse/store/: accounts and organizations, audit, events, tasks, messages, authfail
--   Store.Paging, Store.Queries
--                  the pages of synapse/store/queries.py: message_page, conversation_page,
--                  notification_page; reply_status, unread_by_sender
--   Cursor         synapse/cursor.py; Service._pagination, Service._next_cursor
--   Validation     synapse/validation.py: the validators (Names, Texts, Identifiers, Numbers, Words, Cards,
--                  Keys), COMMAND_SPECS (Params, Commands), validate_envelope (Envelope)
--   Service.Common, Service.Transaction
--                  what a handler is given; Service._stamp and db.begin_immediate (`write`)
--   Service.Guards, Service.Tasks, Service.Requests
--                  synapse/service.py: _task_visible_or_404, the budgets, _check_escalations,
--                  _dependency_depth, _external_comm_allowed; _agent_create_task to
--                  _agent_reject_task; a sequence of calls (`serve`)
--   Service.Messages
--                  _send_message, _read_message, _mark_conversation_no_reply
--   Service.Groups, Service.Organizations
--                  the group commands; the commands of an organization; the delegations of tasks
--   Service.Settings
--                  _org_set_event_retention_days to _org_set_agent_budget; _human_create_org,
--                  _human_disable_org; organizations.insert
--   Service.Structure
--                  _org_create_department to _org_get_org_structure, _require_role; the observer
--                  accounts
--   Service.Reads  _get_messages, _get_conversation, _get_notifications
--   Service.Dispatch
--                  Service._dispatch and Service._audit_action, and the tables of handlers
--   Store.Cards, Service.Directory
--                  synapse/store/cards.py and accounts.list_by_org; _agent_set_agent_card,
--                  _org_approve_agent_card, _agent_find_agents, _list_org_agents, _get_my_organization,
--                  _get_agent_description
--   Service.Targets, Service.Process
--                  Service.process, Service._dispatch, Service._audit_action, _TARGET_FIELD
--   Service.Auth   _cached_password_ok, _authenticate, _authenticate_organization; the
--                  table auth_failures, which only the logins use, and the cache (AuthState)
-- The other files of Hlc, Store, Cursor, Validation and Service hold the proofs, and Tests runs them on
-- one small server.
--
-- The model. Usernames, organization names, UUIDs and client identifiers are only compared, and are
-- numbers; timestamps are milliseconds; the hlc column is the pair that its text encodes, whose order
-- is the order of the texts. A table is the list of its rows, newest first, which a SELECT without ORDER
-- BY follows. A handler takes the database to a result and the new database; `write` commits it or
-- rolls back, and the clock, which is in memory, keeps the stamp. A failed assert or a violated
-- constraint is `internal_error`. The readings of the clocks and the new identifiers are arguments (Env,
-- Attempt). read_message and change_agent_password read before their transaction, and take both
-- databases. The handlers are given validated values: names are in lower case, and depends_on has no
-- duplicates. In Validation and Cursor a text is the list of its code points, and an exception that is
-- no ApiError is `internal_error`. `process` takes the tables of handlers as an argument, so what is
-- shown of it holds of any handlers; Tests.Requests runs it with the handler of deactivate_agent.
--
-- Bounds. The clock has 13 and 6 decimal digits; numbers are unbounded in Python and here. Two
-- functions run on fuel: `depth_loop`, whose rounds are the loop's own limit, and the clients that follow
-- cursors (`walk`, `read_mailbox`), which answer `none` when it is used up and for which one page for
-- each `limit` rows, and at least one, is enough. A login is one step: that two logins of the threaded
-- server count, compare and record at the same time is not modelled.
--
-- Parameters: Python's table of decimal digits (Hlc.Digits); Argon2, SHA-256 and the comparison with
-- the token file (Auth.Secrets); base64, json and HMAC (Cursor.Codec); Unicode categories, whitespace, NFC,
-- casefold and SHA-256 (Validation.Unicode); in create_agent the answer of is_reserved_human_username.
--
-- Not modelled: the transport, the command line, the web interface, the A2A bridge and the migrations, which
-- move bytes; the decoding of JSON; SQLite's LIKE (a parameter); the human commands other than create_org
-- and disable_org, the reputation, the metrics, and the paginated reads other than those of messages and
-- of the directory; the fields of the log.
pub mod Prelude
pub mod Hlc
pub mod Cursor
pub mod Errors
pub mod Validation
pub mod Db
pub mod Store
pub mod Service
pub mod Tests
