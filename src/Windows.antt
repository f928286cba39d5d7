-- ===== src/Windows.antt =====
-- agents/windows/tcpra_agent_c.c: the structures of the agent for Windows. The text of an error is one
-- of the messages below, without the number that Windows gives, and a row lists them. Counters and the
-- clock of 64 bits stand as numbers without a bound.
pub mod Buffer
pub mod Hello
pub mod Report
pub mod Inspect
pub mod Decide
pub mod Control
pub mod Worker
pub mod Guardian
pub mod Bounds
pub mod Genuine
pub mod Run
pub mod Tests
use tlslatch.Base.{ℕ, ◌*◌, List, Option, Bool}

abbrev pub tls_cap : ℕ
tls_cap = 262144

abbrev pub held_cap : ℕ
held_cap = 33554432

pub data Message : Type 0 where
  client_buffer_exceeded server_buffer_exceeded arena_exceeded release_failed pool_stopped : Message
  open_failed send_failed connect_failed nonce_failed io_failed bad_header bad_status : Message
  report_read_failed hello_timeout verdict_failed report_refused : Message

pub record FlowKey : Type 0 where
  pub local_ip : List ℕ
  pub remote_ip : List ℕ
  pub local_port : ℕ
  pub remote_port : ℕ

-- The payload and its length are one list.
pub record PacketView : Type 0 where
  pub flow : FlowKey
  pub sequence : ℕ
  pub outbound : Bool
  pub syn : Bool
  pub ack : Bool
  pub fin : Bool
  pub rst : Bool
  pub payload : List ℕ

-- `data` is the bytes written, `length` of them.
pub record ByteBuffer : Type 0 where
  pub bytes : List ℕ
  pub capacity : ℕ

-- The address is what WinDivert gave with the packet, and takes back.
pub record HeldPacket : Type 0 where
  pub address : ℕ
  pub bytes : List ℕ

pub record Row : Type 0 where
  pub ra : Bool
  pub success : Bool
  pub verified : Bool
  pub lookup_key : List ℕ
  pub local_serverhello_key : List ℕ
  pub response_report_key : List ℕ
  pub have_lookup_key : Bool
  pub have_local_serverhello_key : Bool
  pub have_response_report_key : Bool
  pub opened_ns : ℕ
  pub client_hello_ns : ℕ
  pub server_hello_ns : ℕ
  pub request_start_ns : ℕ
  pub response_done_ns : ℕ
  pub verify_start_ns : ℕ
  pub verify_done_ns : ℕ
  pub decision_ns : ℕ
  pub closed_ns : ℕ
  pub packets_copied : ℕ
  pub bytes_copied : ℕ
  pub held_packets : ℕ
  pub released_packets : ℕ
  pub response_status : ℕ
  pub key_match : Bool
  pub report_verify : Bool
  pub remote_verdict_sent : Bool
  pub control_worker : ℕ
  pub control_reused : Bool
  pub errors : List Message

-- The queue of held packets, from `held_head` on, is a list.
pub record Session : Type 0 where
  pub client_tls : ByteBuffer
  pub server_tls : ByteBuffer
  pub held : List HeldPacket
  pub held_bytes : ℕ
  pub row : Row
  pub worker_started : Bool
  pub decision_done : Bool
  pub allowed : Bool
  pub fin_seen : Bool

-- The part of `Config` that the handling of packets reads.
pub record Config : Type 0 where
  pub server_addr : List ℕ
  pub main_port : ℕ
