-- ===== src/Examples.antt =====
-- Runs of the program on concrete data, by the part that they exercise.
mod Fixtures
mod Deliveries
mod Parcels
mod Ledgers
mod Races
mod Routes
mod Stores
mod Services
mod Custody
mod Rides
mod Desk
mod Api
mod Calls
mod Requests
mod Fares
mod Rows
