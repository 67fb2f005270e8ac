-- ===== src/Datatypes.antt =====
-- datatypes.py: the LysKOM data types, each with its reader and, where the class has one, the
-- bytes that it sends.
pub mod Basic
pub mod Time
pub mod Flags
pub mod AuxItem
pub mod MiscInfo
pub mod Conference
pub mod Person
pub mod Membership
pub mod Server
pub mod Session
pub mod Text
pub mod Statistics
