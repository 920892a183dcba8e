-- ===== src/Tests.antt =====
-- The theorems at concrete inputs.
mod Memory
mod Wired
mod Packets
mod Transfers
mod Devices
mod Servers
mod Sessions
mod Peers
mod Loggers
mod Harbour
mod Clients
mod Lives
mod Spreads
mod Notices
mod Starts
mod Uploads
mod Accounts
