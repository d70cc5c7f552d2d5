-- ===== src/Tests.antt =====
-- Concrete environments and stores, and the theorems applied to them.
mod Simulation
mod Stores
mod ProcessorRuns
mod SenderRuns
mod StoreRuns
mod InboxRuns
mod ApiRuns
mod AcceptanceRuns
mod Finds
mod QueueRuns
mod ProgramRuns
mod SystemRuns
mod WebhookRuns
mod Closed
mod ClosedRuns
mod LivenessRuns
mod RaceRuns
