-- ===== src/Tests.antt =====
-- Runs of the model on concrete inputs, and each theorem at an input that meets its hypotheses.
mod AllocationTests
mod PricingTests
mod PaymentTests
mod GatewayTests
mod JournalTests
mod ClosureTests
mod ReversalTests
mod CaseTests
mod OverdueTests
mod EclTests
