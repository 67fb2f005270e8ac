-- ===== src/Requests.antt =====
-- requests.py: what a client may ask, how a request is written, and how its reply is read.
pub mod Request
pub mod Calls
pub mod Responses
pub mod Serialize
