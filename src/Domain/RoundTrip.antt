-- ===== src/Domain/RoundTrip.antt =====
-- domain.py: `from_dict` after `to_dict`.
mod Readers
pub mod Records
pub mod State
