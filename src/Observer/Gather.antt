-- ===== src/Observer/Gather.antt =====
-- agents/linux/pcap_observer.c: a ClientHello that comes in segments.
pub mod Table
pub mod Segments
pub mod Whole
