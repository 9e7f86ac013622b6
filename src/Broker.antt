-- ===== src/Broker.antt =====
-- The broker of libshvbroker: sets of clients, and subscriptions.
pub mod Nbool
pub mod Subscription
pub mod State
pub mod Mount
pub mod Clients
pub mod Signal
mod Sample
pub mod Stages
mod Runs
mod ClientRuns
