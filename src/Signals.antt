-- ===== src/Signals.antt =====
-- `alrmsigdemo` of AlarmSignal.c.
pub mod Alarm
pub mod Ticks
mod Tests
