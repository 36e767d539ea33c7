-- ===== src/Host.antt =====
-- The facts on the host (engines/host_facts.py). What a file or a command gives is an argument; a file
-- that cannot be read is `none`.
pub mod Cpu
pub mod Memory
pub mod Mount
pub mod Cgroup
pub mod System
pub mod Short
