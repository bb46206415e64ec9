-- ===== src/Agents.antt =====
-- The agents on the hosts: their rows, their connections, and what is decided for a host.
pub mod Live
pub mod Services
pub mod Binding
pub mod Site
pub mod Rows
pub mod Connect
pub mod Iam
