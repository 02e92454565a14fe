-- ===== src/LeaseKeeper.antt =====
-- telegram_phone_number_checker/lease_keeper.py: the heartbeat that renews the two leases of a
-- worker, and the check that it still owns them.
pub mod Keeper
pub mod FailClosed
pub mod Heartbeats
