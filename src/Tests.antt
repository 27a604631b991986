-- ===== src/Tests.antt =====
-- The theorems at concrete inputs, and runs of the modelled code.
mod Util
mod Intset
mod Dict
mod Prefixed
mod Sized
mod Slowlog
mod Pubsub
mod Multi
mod Sds
mod Rio
mod Rdb
mod Notify
mod Glob
mod Keyspace
mod Increments
mod Flush
mod Options
