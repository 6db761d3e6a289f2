-- ===== src/Tests.antt =====
-- Runs of the program on small inputs, at which the theorems apply.
mod Heaps
mod Queues
mod Early
mod Signing
mod Epochs
mod Tables
mod Files
mod States
mod Daemons
mod Lists
mod Commands
mod Printed
mod Exports
mod Ids
mod Stops
