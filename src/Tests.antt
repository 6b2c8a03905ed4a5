-- ===== src/Tests.antt =====
-- Inputs on which the models are run, and what they give on them.
pub mod Samples
pub mod Registries
pub mod Firewalls
pub mod Rings
pub mod Messages
pub mod Requests
pub mod Peers
pub mod Outgoing
pub mod Proxying
pub mod Stations
pub mod Gates
pub mod Joining
pub mod Billing
pub mod Tokens
