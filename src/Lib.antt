-- ===== src/Lib.antt =====
-- A model of the agents of TLSLatch for Linux (agents/linux) and, in part, of the one for Windows
-- (agents/windows), and the theorems that hold of it.
--
-- The agents bind a TLS connection to a report of a trusted execution environment before any
-- application data leaves the client. A client's agent takes the packets of a connection from a queue
-- of the kernel: it lets the handshake pass, takes a lookup key from the ClientHello and a report key
-- from the ServerHello, and holds the client's data. Its control threads ask the server's agent for the
-- report on the connection and verify it; a decision then releases the flow, or drops what is held and
-- puts the endpoint in quarantine. The server's agent watches the same two hellos, has a report made on
-- the report key, and answers the request that names the lookup key.
--
-- Files, and what they model:
--   Tls      agents/linux/tls_parse.c. Digest has the keys, Hello the two hellos, Records the walk over
--            records. Format and Stream are printers for what RFC 8446 lays out, Safety and Walk are
--            on reads inside the buffers, RoundTrip on what is found in printed messages.
--   Packet   agents/linux/packet_view.c: tcpra_parse_ipv4_tcp, tcpra_normalize_flow.
--   Ring     the ring buffer of enqueue_job, enqueue_decision and enqueue_report, against a queue.
--   Client   agents/linux/tcpra_client_agent.c and client_audit.h. State has the structures, Table
--            gate_flow_find and gate_flow_slot, Held finish_held to quarantine_endpoint, Sessions the
--            sessions, Action, AuditMode, Gated and Handler handle_client_packet and nfqueue_callback,
--            Decision apply_decision_impl to finish_session, Expiry expire_gate_flows, Control
--            run_control_job in three parts, with Attested on what it verifies. Gate is the
--            state machine of one slot; below it stand the operations as its steps, and runs.
--   Observer agents/linux/pcap_observer.c, built without the queue for ServerHellos: Stashes has the table
--            of stashes, Feed ch_emit and ch_feed, Capture network_offset and capture_packet. Bounds is on
--            the buffers, Gather on a ClientHello in segments, Recover on one that had to wait.
--   Csv      agents/linux/csv_attestation.c: the configuration in hexadecimal and verify_impl.
--   Wire     agents/linux/wire_io.c: whole reads and writes, numbers in network order.
--   Server   agents/linux/tcpra_server_agent.c. State has the structures, Cache and Index the two hash
--            tables, Schedule the report jobs, Observe the two hellos and the stored report, Control a
--            request up to its verdict, Worker the answers of control_worker_main. Delivery and
--            Serving are on the two functions that wait, Kept on what the others leave of a request, Mutual
--            on clients that are to attest themselves.
--   Windows  agents/windows/tcpra_agent_c.c: Buffer has buffer_append, Hello packet_view and find_hello_key,
--            Report verify_report, Inspect inspect_packet and hold_packet, Decide decide, Control the job
--            of control_worker in two parts, Worker flow_worker, finish_session and session_new. Bounds is
--            on the buffers, Genuine on reports, Run on the life of a session. Guardian has the loop of
--            agents/windows/guardian.c, and below it Client the calls of guardian_client.c.
--   Protocol, Slots   constants of ra_protocol_early.h, and the occupancy of a slot.
--   Base     Boolean tests, lists, and the outcome of a function that reads a buffer: a value, return 0,
--            a read outside, or a loop out of fuel.
--
-- State is passed explicitly. What the kernel, OpenSSL and the CSV library answer is a parameter: the
-- functions sha512 and sm2, the record Env of each agent or operation, the fields of Context, the list of
-- answers of a socket.
-- A C function that locks a mutex is one step. A parser takes the length of its buffer, plus one, as
-- fuel, which the theorems on reads show to be enough; the probes of a hash table take its capacity, as
-- the C loops do. Clocks and counters of sequence numbers keep their wrap-around; the counters of
-- statistics are taken as unbounded.
--
-- Not modelled: start and stop of the threads, the command line and the printed reports; the waits of
-- the control threads, of which the server's are modelled by one round of their loop; the opening
-- and polling of the capture, and its queue for ServerHellos; the text for nft, ip6tables and the
-- profile; of the agent of Windows the discovery of flows, its queues and the start of its two
-- processes; the agent of macOS and the batch tools, which repeat this logic in other settings; the vendored library.
pub mod Base
pub mod Protocol
pub mod Tls
pub mod Packet
pub mod Ring
pub mod Slots
pub mod Client
pub mod Server
pub mod Csv
pub mod Wire
pub mod Windows
pub mod Observer
