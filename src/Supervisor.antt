-- ===== src/Supervisor.antt =====
-- scheduler/supervisor: hosts, tasks and peers, and the managers that own them.
pub mod State
pub mod Hosts
pub mod Tasks
pub mod Budget
pub mod Peers
pub mod Tree
pub mod Channels
pub mod Managers
