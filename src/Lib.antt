-- ===== src/Lib.antt =====
-- Retail credit platform: the financial core of the backend.
--
-- The backend sells goods on instalments. An offer is priced into a schedule of installments
-- (app/services/pricing.py); a contract keeps the installments with what was paid and written off of
-- each, and the late fees charged on them (app/models/contract.py, app/models/payment.py); a payment
-- is split over the installments oldest first (app/services/allocation.py) and recorded with its
-- effect on the balances, the ledger, the accounting events, the collections workflow and the life of
-- the contract (app/services/payments.py, ledger.py, accounting.py, closure.py). An accepted offer
-- becomes a delivered contract (app/services/offers.py), which ends when it is repaid, settled early,
-- cancelled or returned (app/services/closure.py); each accounting event becomes a balanced journal by
-- the sources of its type (app/services/gl_journal.py); a gateway payment that is taken back is undone
-- row by row (app/services/payment_reversal.py); what falls overdue is marked and charged a late fee
-- (app/services/overdue.py) and is followed in collection cases with promises to pay
-- (app/services/collections.py). The expected credit loss of a contract is taken by its stage
-- (app/services/ecl_stage.py, ecl_engine.py). A customer may also pay through a payment gateway: a
-- payment intent (app/services/payment_intents.py) whose status is moved by signed webhooks
-- (app/services/gateway_webhooks.py) along a fixed graph (app/models/payment_gateway.py).
--
-- Files:
--   Common        numbers, rounding, lists, sums, sorting, texts, results
--   Allocation    app/services/allocation.py; its children compare the loop with a closed form
--   Pricing       app/services/pricing.py (build_plan); its children treat the schedule and the plan
--   Contract      app/models/contract.py, payment.py, closure.py; Contract.Receivable is
--                 app/services/receivable.py and exposure.py
--   Ledger        app/models/ledger.py, app/services/ledger.py
--   Accounting    app/models/accounting.py, and the interface of app/services/accounting.py
--   Closure       app/services/closure.py: close_if_fully_repaid; Quote is the settlement quote, Endings
--                 early settlement, cancellation and return, the other children treat these
--   Journal       app/models/gl.py, app/services/gl_journal.py, accounting.py; Generate
--                 makes the journal of an event, Books is the event table with its journals, the other
--                 children treat the balance and the interface Accounting
--   Payments      app/services/payments.py: Record is record_payment, Apply its effect on one
--                 installment, the other children what it does to a contract
--   Gateway       app/models/payment_gateway.py; Intents is payment_intents.py, Webhooks is
--                 gateway_webhooks.py, the other children treat the graph, repeated deliveries, the
--                 effect of a webhook, sequences of webhooks, checkouts and requests for an
--                 intent
--   Offers        Offers.Delivery is the delivery of goods in app/services/offers.py
--   Lifecycle     the steps of one contract from delivery to closure, and their runs
--   Reversal      app/services/payment_reversal.py; the children treat the charges, the installments
--                 and a payment that is recorded and taken back
--   CollectionCases  app/models/collections.py, app/services/collections.py; the children treat the open
--                 cases and the promises
--   Overdue       app/services/overdue.py; the children treat the fees
--   Ecl           app/services/ecl_stage.py and rating_notches of ecl_risk.py; Engine is ecl_engine.py,
--                 Worse compares the stages of two contexts
--   Tests         runs, and the theorems on concrete inputs
--
-- State and operations. An amount is a whole number of cents (ℤ, which may be negative); an input
-- that is not yet rounded is a Decimal, a coefficient with a number of places. A service is a function
-- from the state that it reads and writes (Payments.Record.Store for one contract) to the new state or
-- the error; the numbers that the database would give to new rows are counters in that state, and the
-- current time is an argument. A row that the code changes in place is replaced in the list that holds
-- it. Installments, payments and charges are lists, in the order in which the code reads them.
--
-- Parameters. The accounting boundary (Accounting) and the collections workflow (Collections) are
-- records of operations that the payment, closure and reversal services take as arguments. Accounting
-- carries the one law that an event is added once for each reference, and the event table with its
-- journals fills it (Journal.Posting.general_ledger); the cases fill Collections
-- (CollectionCases.case_workflow). Provisioning in the credit-loss service and the posting of a journal
-- to the outside ERP are arguments. The webhook handler takes the financial effects as a
-- record of two operations that may raise (Gateway.Webhooks.Finance), and the outcome of the signature
-- check, whose HMAC is an outside library's, as an argument; the intent services take the gateway
-- client's answer, the formatting of references and the owner of a contract.
--
-- Loops are structural recursion on the list or the number that the code iterates over; no definition
-- runs on fuel.
--
-- Not modelled: the finite precision of Python's decimal context (28 digits; amounts here are exact),
-- concurrency of database sessions, the configuration table, HTTP, authentication, reports, the
-- frontend and the mock gateway; the overdue assessment is of one contract at a time, and the runs of
-- the credit loss, write-offs, approvals, reconciliation and the chart of accounts are left out.
pub mod Common
pub mod Allocation
pub mod Pricing
pub mod Contract
pub mod Ledger
pub mod Accounting
pub mod Closure
pub mod Journal
pub mod Payments
pub mod Gateway
pub mod Offers
pub mod CollectionCases
pub mod Overdue
pub mod Ecl
pub mod Reversal
pub mod Lifecycle
mod Tests
