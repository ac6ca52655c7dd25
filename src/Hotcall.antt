-- ===== src/Hotcall.antt =====
-- OFTonSGX/untrusted/hotcall-untrusted.c and hotcall-untrusted.h, OFTonSGX/trusted/hotcall-trusted.c
-- and OFTonSGX/untrusted/spinlock.c: calls into the enclave over shared memory. A thread of the
-- switch, the caller, queues function calls and waits; a thread of the enclave, the poller, runs
-- them. Each of their accesses to shared memory is one step of one thread.
pub mod Calls
pub mod Threads
pub mod Stages
pub mod Phases
pub mod Ring
pub mod Filled
pub mod Delivery
pub mod Leads
pub mod Service
pub mod Progress
mod Examples
