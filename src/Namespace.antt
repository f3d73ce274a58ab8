-- ===== src/Namespace.antt =====
-- namespace/: the calls that every object and policy package makes through one `Namespace`.
--
-- The client behind a namespace is the interface `XapiClient`: each call takes the client's state
-- and returns the new one with what Go returns. Logging writes to the log only and is left out.
pub mod Client
pub mod Unpackage
pub mod Write
pub mod Retrieve
pub mod Group
pub mod Device
mod Tests
