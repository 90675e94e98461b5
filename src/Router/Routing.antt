-- ===== src/Router/Routing.antt =====
-- unica/router/internal/routing/router.go: from an entry of the inbound stream to what the customer
-- and the agents see. Parts are Types (the router's state and what it sends), Publish (what is
-- written to the streams), Answer (the call of the model and the delivery of its judgement) and
-- Process (an entry).
pub mod Types
pub mod Lock
pub mod Publish
pub mod Context
pub mod Deliver
pub mod Answer
pub mod Process
pub mod Rules
pub mod Service
pub mod Entries
pub mod Handover
pub mod Readable
mod Tests
