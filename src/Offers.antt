-- ===== src/Offers.antt =====
-- app/services/offers.py: an accepted offer becomes a contract, and its delivery makes it active.
pub mod Delivery
