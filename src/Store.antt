-- ===== src/Store.antt =====
-- The collection of messages as the services see it, through any implementation of the ports: what
-- may become of a message, and the laws under which the services keep to it.
pub mod Evolution
pub mod Keeps
pub mod Returns
pub mod Laws
pub mod Services
