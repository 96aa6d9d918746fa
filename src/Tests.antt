-- ===== src/Tests.antt =====
-- The theorems of the library at concrete inputs.
mod Table
mod Text
mod Sets
mod Locks
mod Streams
mod Arguments
mod Output
mod Printed
mod ReadWrite
mod Signals
