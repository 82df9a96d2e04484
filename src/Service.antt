-- ===== src/Service.antt =====
-- The command handlers (synapse/service.py). A handler is what runs inside the transaction: it reads
-- the database and returns the new one, or raises. `Transaction` runs it and rolls back.
pub mod Common
pub mod Transaction
pub mod Guards
pub mod Tasks
pub mod Requests
pub mod CausalCommands
pub mod Causal
pub mod Steps
pub mod Escalation
pub mod Tracked
pub mod Lifecycle
pub mod Depth
pub mod Approval
pub mod Messages
pub mod Sending
pub mod Policies
pub mod Reading
pub mod Groups
pub mod Auth
pub mod Attempts
pub mod Lockout
pub mod PasswordCache
pub mod Login
pub mod Membership
pub mod Organizations
pub mod Settings
pub mod Placed
pub mod Placement
pub mod Structure
pub mod Reached
pub mod SoundCache
pub mod Logged
pub mod Answered
pub mod Accepted
pub mod Credentials
pub mod Targets
pub mod Process
pub mod Budgets
pub mod HumanOrgs
pub mod Untouched
pub mod Tenancy
pub mod GroupRetries
pub mod Delegations
pub mod GroupPolicies
pub mod Reads
pub mod Mailbox
pub mod Frozen
pub mod Snapshot
pub mod Dispatch
pub mod Directory
