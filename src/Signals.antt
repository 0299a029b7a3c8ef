-- ===== src/Signals.antt =====
-- studios/studio20: a sender and a receiver of real-time signals, and a loop that signals interrupt.
pub mod System
pub mod Count
pub mod Ending
pub mod Printing
pub mod Interrupts
pub mod Reports
mod Tests
