-- ===== src/Tests.antt =====
-- The theorems applied to concrete inputs.
mod Data
mod Dividing
mod Draining
mod Reading
mod Recovering
mod Shipping
mod Parking
mod Configuring
mod Scheduling
mod Finding
mod Ranging
mod Waves
mod Polling
