-- ===== src/Payments.antt =====
-- app/services/payments.py: recording a payment against a contract. The state is what the handler
-- reads and writes for one contract; the accounting boundary and the collections workflow enter by
-- the interfaces that they show.
pub mod Apply
pub mod Charges
pub mod Record
pub mod Update
pub mod Serves
pub mod Effect
pub mod Owed
pub mod Balances
pub mod Closing
pub mod Outcome
pub mod Keeps
pub mod Ends
pub mod Entries
pub mod Exposed
pub mod Events
