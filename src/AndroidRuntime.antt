-- ===== src/AndroidRuntime.antt =====
-- jni/AndroidRuntime.cpp: the start of the Java VM. The children have its parts.
pub mod Text
pub mod Options
pub mod Locale
pub mod StartVm
pub mod Names
pub mod Threads
pub mod Start
mod Tests
