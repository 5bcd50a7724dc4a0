-- ===== src/Tests.antt =====
-- Runs of the model on small inputs, and each theorem at an input that meets its hypotheses.
mod Compressor
mod Sender
mod Locks
mod Members
mod Backups
mod Login
mod Chains
mod Rooms
mod Numbers
mod Search
mod Servers
mod Devices
mod Account
mod Receipts
