-- ===== src/Tests.antt =====
-- Concrete runs: the code on small inputs.
mod Data
mod Keys
mod Collecting
mod Joining
mod Pooling
mod Reading
mod Reporting
mod Sizing
mod Publishing
mod Restarting
mod Writing
mod Serving
mod Mailing
mod Sessions
