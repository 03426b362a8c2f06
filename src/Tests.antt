-- ===== src/Tests.antt =====
-- The theorems at concrete data, over the sample services of `Sample`.
mod Sample
mod Service
mod Requests
mod Ids
mod Pools
mod Instances
mod Providers
mod Prices
mod Types
mod Doubles
mod Azure
mod Generators
