-- ===== src/Examples.antt =====
-- Runs of the theorems on small concrete inputs.
mod Toy
mod Readers
mod StatusLists
mod ToyDer
mod Encodings
mod AndroidVerifiers
mod AppleVerifiers
mod Handlers
mod Responses
mod Enclave
mod Accepted
mod Devices
