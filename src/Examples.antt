-- ===== src/Examples.antt =====
-- The theorems at concrete inputs.
pub mod Access
pub mod Sessions
pub mod Requests
pub mod MiniApp
pub mod Chats
pub mod Bookings
pub mod Broadcasts
pub mod Navigation
pub mod Dashboard
pub mod Details
pub mod Salon
pub mod Wizard
pub mod WeekGrid
pub mod Assistant
pub mod Periods
