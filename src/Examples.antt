-- ===== src/Examples.antt =====
-- Concrete playbooks, machines and histories: tests of the definitions, and the theorems applied.
pub mod Samples
pub mod Texts
pub mod Playbooks
pub mod Runs
pub mod Servers
pub mod Handlers
pub mod Lines
pub mod Links
pub mod Submissions
pub mod Requests
