-- ===== src/Billing.antt =====
-- The charges of the tenant's events: the command `billing show` (agentsfleet/src/commands/billing.ts)
-- and the dashboard's billing page (ui/packages/app/app/(dashboard)/settings/billing).
pub mod Dashboard
pub mod Cli
pub mod Groups
pub mod Pages
pub mod Hidden
pub mod Dropped
