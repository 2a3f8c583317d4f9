-- ===== src/Tests.antt =====
-- The models on small inputs, and the theorems at them.
mod Intents
mod Leases
mod Deployments
mod Listings
mod Releases
mod Allocations
mod Threads
mod Turns
mod Requests
