-- ===== src/Staffing.antt =====
-- Staffing demand: api/app/routers/staffing.py. Calendar has the months, Phases the intervals of the
-- phases, Months the demand by month, Rates the client's own escalation rates.
pub mod Calendar
pub mod Phases
pub mod Months
pub mod Rates
pub mod Exact
pub mod Saved
pub mod Stacked
mod Tests
