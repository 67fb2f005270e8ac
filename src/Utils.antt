-- ===== src/Utils.antt =====
-- utils.py: the helpers of the clients.
pub mod Ranges
pub mod Hollerith
pub mod UserArea
pub mod Regexp
pub mod Mime
