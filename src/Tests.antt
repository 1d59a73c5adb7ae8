-- ===== src/Tests.antt =====
-- Runs of the model at concrete inputs, on the samples of Samples.
mod Samples
mod Storing
mod Syncing
mod Racing
mod Starting
mod Joining
mod Sending
mod Spreading
mod Serving
mod Running
mod Connecting
mod Managing
