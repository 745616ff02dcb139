-- ===== src/Dispatch/Examples.antt =====
-- Concrete packets, events and worlds on which the theorems on services/dispatch are applied.
pub mod Data
pub mod Events
pub mod Packets
pub mod Handlers
pub mod Tables
