-- ===== src/Xel.antt =====
-- What the program assumes of the xel library, whose code is not in the repository: one record of
-- operations and laws for each of its classes, taken as a parameter by the code that calls it.
pub mod ClientPool
pub mod Storage
pub mod NodeList
pub mod Hex
pub mod Instances
pub mod NetAddress
pub mod ServerIds
pub mod Stream
