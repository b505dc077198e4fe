-- ===== src/Examples.antt =====
-- Concrete databases and calls: each theorem of the results is applied to one of them.
mod Setting
mod Federation
mod Web
mod Logins
mod Accounts
mod Sessions
mod Changes
mod Imports
mod Services
mod Processes
