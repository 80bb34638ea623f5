-- ===== src/Client.antt =====
-- The client of the engine's control plane, src/conduit/client: the builder of a pipeline
-- (Pipeline), the sequence of calls that submits it (Engine), the handle to a run (Handle), errors
-- and their translation (Errors), and the choice of the engine's binary (Provision).
pub mod Engine
pub mod Errors
pub mod Handle
pub mod Local
pub mod Opening
pub mod Spawned
pub mod Supervised
pub mod Pipeline
pub mod Provision
pub mod Ready
pub mod Rows
mod Tests
pub mod Sequence
pub mod Verified
pub mod Waiting
