-- ===== src/Dispatch.antt =====
-- services/dispatch: the tables of sessions and conntrack entries, the subscriptions of the
-- plugins, and the handlers of the kernel's events.
pub mod Ip
pub mod Tuple
pub mod State
pub mod Session
pub mod SessionTable
pub mod ConntrackTable
pub mod ConntrackStats
pub mod Subscriptions
pub mod PriorityLoop
pub mod ConntrackCallback
pub mod Nfqueue
pub mod CallSubscribers
pub mod NfqueueCallback
pub mod WellFormed
pub mod Netlogger
pub mod Attachments
pub mod Service
pub mod Examples
