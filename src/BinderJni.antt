-- ===== src/BinderJni.antt =====
-- jni/android_util_Binder.cpp: what Java calls of Binder.
pub mod Identity
pub mod Errors
pub mod EventLog
pub mod Recipients
mod Tests
