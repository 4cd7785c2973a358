-- ===== src/Tests.antt =====
-- Runs of the model at concrete inputs, and each theorem applied at one.
mod Fixtures
mod Values
mod Redaction
mod Storing
mod Answering
mod Emptied
mod Retaining
mod Guarding
mod Receiving
mod Serving
mod Emitting
mod RoundTrips
mod Running
mod Concurrency
mod Acknowledged
