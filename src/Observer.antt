-- ===== src/Observer.antt =====
-- agents/linux/pcap_observer.c, built with no queue for ServerHellos: the two lanes that see copies of
-- the server's packets, and the stashes in which a ClientHello is put together from its segments.
-- Counters of 64 bits stand as numbers without a bound.
pub mod Stashes
pub mod Feed
pub mod Capture
pub mod Bounds
pub mod Gather
pub mod Recover
pub mod Tests
use tlslatch.Base.{ℕ, List, Option, Bool}
use tlslatch.Packet.{FlowKey}

abbrev pub ch_stash_slots : ℕ
ch_stash_slots = 128

abbrev pub ch_record_max : ℕ
ch_record_max = 2048

abbrev pub ch_stash_ttl_ns : ℕ
ch_stash_ttl_ns = 10000000000

-- `buf` holds the bytes written so far; behind them it is as `memset` left it.
pub record Stash : Type 0 where
  pub used : Bool
  pub deferred : Bool
  pub raw_end : ℕ
  pub flow : FlowKey
  pub next_seq : ℕ
  pub filled : ℕ
  pub needed : ℕ
  pub born_ns : ℕ
  pub buf : List ℕ

-- `force_once` is the static of `ch_emit`, which the environment of the process sets for a test.
pub record Observer : Type 0 where
  pub datalink : ℕ
  pub server_port : ℕ
  pub stashes : List Stash
  pub force_once : Bool
  pub copied_packets : ℕ
  pub copied_bytes : ℕ
  pub ch_split : ℕ
  pub ch_reassembled : ℕ
  pub ch_deferred : ℕ
  pub ch_recovered : ℕ
  pub ch_ack_mismatch : ℕ
  pub ch_stale : ℕ

-- The lane of the packets to the server, and the lane of those from it.
pub record Lanes : Type 0 where
  pub input : Observer
  pub output : Observer

-- A call of `lookup_callback`, or of `key_callback`, with its arguments.
pub data Call : Type 0 where
  lookup_callback : FlowKey → List ℕ → ℕ → ℕ → Call
  key_callback : FlowKey → ℕ → List ℕ → ℕ → ℕ → ℕ → Call

-- What the system answers while one packet is handled: the clock, taken as one reading; the cookie of
-- the server's socket of a flow, and the cookie when it is asked for again; the callback's return value.
pub record Env : Type 0 where
  pub now_ns : ℕ
  pub socket_cookie : FlowKey → Option ℕ
  pub fresh_cookie : FlowKey → Option ℕ
  pub answers : Call → Bool

-- What a handler leaves: the observer, and the callbacks it called, in order.
pub record Handled : Type 0 where
  pub observer : Observer
  pub calls : List Call
