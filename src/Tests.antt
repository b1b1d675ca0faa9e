-- ===== src/Tests.antt =====
-- The development on concrete inputs: a database in memory, stand-ins for the libraries, and the
-- theorems applied to them.
mod Table
mod World
mod Permissions
mod Gateway
mod Keys
mod Logins
mod Members
mod Owners
mod Fleet
mod Sealing
mod Moves
mod Calls
