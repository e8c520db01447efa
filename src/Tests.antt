-- ===== src/Tests.antt =====
-- Concrete crates, and the theorems at concrete inputs.
mod Codecs
mod Crates
mod Keys
mod Examples
mod Certificates
mod GoLibrary
mod Services
mod Disks
mod Requests
mod Meeting
mod Sockets
mod Starts
mod Shuffled
mod Endless
mod Renewal
