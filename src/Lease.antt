-- ===== src/Lease.antt =====
-- The leases on directories: the manager's table (manager/lease/lease_table.cpp, lease_impl.cpp),
-- a client's table (client/lease/lease_table_client.cpp) and its acquire()
-- (client/lease/lease_client.cpp). Clocks are numbers of milliseconds that each call is given, one
-- reading for each call of system_clock::now(). The map of the manager is keyed by the text of the
-- inode number, boost's to_string(), which is a parameter.
pub mod Manager
pub mod Client
pub mod Backing
pub mod System
pub mod Exclusion
mod Examples
