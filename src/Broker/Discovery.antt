-- ===== src/Broker/Discovery.antt =====
-- `DiscoveryService` (sip/broker/discovery.py). Scores are floats in the source: `Scores` is the
-- interface to them. What a peer answers is the argument `ask`: `none` if the call raises, or else
-- the items of its `candidates`.
pub mod Models
pub mod Local
pub mod Remote
pub mod Candidates
pub mod Service
pub mod Bounds
pub mod Sources
pub mod Routing
pub mod Failures
pub mod Trust
