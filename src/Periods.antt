-- ===== src/Periods.antt =====
-- Calendar days in UTC, as the periods of the statistics and of the reports use them
-- (frontend/src/app/(admin)/statistics/statistics-context.tsx and
-- frontend/src/app/(admin)/reports/reports-context.tsx). A `Date` at midnight UTC is the number of days
-- since 1970-01-01, a Thursday; the Gregorian year, month and day are walked out from there, as
-- ECMAScript defines them. Months count from 0.
pub mod Walks
pub mod Calendar
pub mod Statistics
pub mod Ranges
pub mod Detect
pub mod Reports
pub mod Quarter
