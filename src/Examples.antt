-- ===== src/Examples.antt =====
-- The theorems at concrete inputs, and tests of the definitions that follow the repository's own.
mod Session
mod Permission
mod Jsonl
mod Pending
mod Terminal
mod Events
mod Dispatch
mod Capture
mod Frames
mod Run
mod Bindings
mod Protocol
mod Redaction
mod Environment
mod Delivery
mod Project
mod Git
mod Storage
mod Catalog
mod Terminals
