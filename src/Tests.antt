-- ===== src/Tests.antt =====
-- Concrete runs of each component, and the theorems applied to them.
pub mod Routing
pub mod Connection
pub mod Saves
pub mod Host
pub mod Gateway
pub mod Usage
pub mod Framing
pub mod Providers
pub mod Processes
pub mod Middleware
pub mod Trust
pub mod Candidates
pub mod Servers
pub mod Sessions
pub mod Listen
pub mod Instances
pub mod Mounts
pub mod Streams
pub mod Requests
