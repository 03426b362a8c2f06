-- ===== src/Fake.antt =====
-- pkg/fake: the test doubles that the tests of the providers are built on.
pub mod Client
pub mod Clone
pub mod Ptr
pub mod Error
pub mod Stack
pub mod Mocked
pub mod Polling
pub mod Prices
pub mod Machines
pub mod Types
