-- ===== src/Tests.antt =====
-- A scripted host, runs of the definitions, and the theorems at concrete inputs.
mod Script
mod Shell
mod Transfers
mod Scp
mod Sessions
mod Connection
mod Paths
mod Downloads
mod Listing
mod Sftp
mod Obedient
mod Outputs
mod Bytes
mod Shelf
mod Trees
mod Failures
mod Entries
