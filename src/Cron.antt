-- ===== src/Cron.antt =====
-- internal/adapters/recurrence: five-field cron rules, `@every` intervals, and the calculator that
-- implements the interface `Recurrence`. Texts are ASCII.
pub mod Words
pub mod Field
pub mod Expression
pub mod Calculator
pub mod Lawful
pub mod Interval
pub mod Laws
