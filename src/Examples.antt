-- ===== src/Examples.antt =====
-- Concrete states and inputs, and the theorems at them.
mod Uploads
mod World
mod Media
mod Jobs
mod Requests
mod Dispatches
mod Values
mod Posts
mod Attempts
mod Inspections
mod Settings
