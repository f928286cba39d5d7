-- ===== src/Protocol.antt =====
-- Constants of agents/linux/ra_protocol_early.h.
use tlslatch.Base.{ℕ, ◌*◌}

abbrev pub ra_magic : ℕ
ra_magic = 0x43535631

abbrev pub ra_version : ℕ
ra_version = 5

abbrev pub ra_mra_version : ℕ
ra_mra_version = 6

abbrev pub ra_report_size : ℕ
ra_report_size = 2548

abbrev pub ra_key_size : ℕ
ra_key_size = 64

abbrev pub ra_window_ns : ℕ
ra_window_ns = 30 * 1000000000
