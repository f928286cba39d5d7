-- ===== src/Windows/Inspect.antt =====
-- agents/windows/tcpra_agent_c.c: a packet of a session, and the packets that are held.
use tlslatch.Base.{
  ℕ, ◌+◌, ◌-◌, ◌%◌, ◌^◌, List, [], ◌∷◌, ◌++◌, Option, some, none, Bool, true, false, not, ltb, ◌==◌,
  ◌&&◌, ◌||◌, if◌then◌else◌, length, Result, ok, branch, attempt, ◌>>=◌,
}
use tlslatch.Windows.{
  PacketView, Session, Message, client_buffer_exceeded, server_buffer_exceeded, arena_exceeded,
  held_cap,
}
use tlslatch.Windows.Buffer.{buffer_append}
use tlslatch.Windows.Hello.{find_hello_key}

pub data Action : Type 0 where
  action_send action_hold action_drop : Action

-- What the system answers while a packet is inspected: the clock, taken as one reading, and whether
-- memory of a size can be had.
pub record InspectEnv : Type 0 where
  pub now_ns : ℕ
  pub allocates : ℕ → Bool

abbrev pub append_error : Message → Session → Session
append_error message s = record s { row = record (s.row) { errors = s.row.errors ++ message ∷ [] } }

-- `held_bytes` is a `size_t`, so that the room is a difference on 64 bits.
unfoldable pub hold_packet : InspectEnv → ℕ → List ℕ → Session → Option Session
hold_packet env address bytes s =
    if ltb ((held_cap + 2 ^ 64 - s.held_bytes) % 2 ^ 64) (length bytes)
      || not (env.allocates (length bytes))
    then none
    else some (record s {
      held = s.held ++ (record { address = address; bytes = bytes }) ∷ [];
      held_bytes = s.held_bytes + length bytes;
      row = record (s.row) { held_packets = s.row.held_packets + 1 };
    })

abbrev pub free_held : Session → Session
free_held s = record s { held = []; held_bytes = 0 }

-- A session, and whether the control worker is to be given it, or the session to be detached.
pub record Seen : Type 0 where
  pub session : Session
  pub submit : Bool
  pub detach : Bool

abbrev pub seen : Session → Seen
seen s = record { session = s; submit = false; detach = false }

abbrev pub client_hello_seen : InspectEnv → List ℕ → Session → Seen
client_hello_seen env key s =
    let after = record s {
      row = record (s.row) {
        lookup_key = key;
        have_lookup_key = true;
        client_hello_ns = env.now_ns;
      };
    } in
    if s.row.ra && not s.worker_started
    then record { session = record after { worker_started = true }; submit = true; detach = false }
    else seen after

abbrev pub server_hello_seen : InspectEnv → List ℕ → Session → Seen
server_hello_seen env key s =
    let after = record s {
      row = record (s.row) {
        local_serverhello_key = key;
        have_local_serverhello_key = true;
        server_hello_ns = env.now_ns;
      };
    } in
    if not s.row.ra
    then record {
      session = record after {
        allowed = true;
        decision_done = true;
        row = record (after.row) { decision_ns = env.now_ns };
      };
      submit = false;
      detach = true;
    }
    else seen after

abbrev pub count_copied : ℕ → Session → Session
count_copied length s = record s {
  row = record (s.row) {
    packets_copied = s.row.packets_copied + 1;
    bytes_copied = s.row.bytes_copied + length;
  };
}

abbrev pub close_seen : InspectEnv → PacketView → Session → Session
close_seen env view s =
    if view.fin || view.rst
    then record s { fin_seen = true; row = record (s.row) { closed_ns = env.now_ns } }
    else s

module _ (sha512 : List ℕ → Option (List ℕ)) (env : InspectEnv) where
  unfoldable pub find_client_key : Session → Result Seen
  find_client_key s =
      if s.row.have_lookup_key
      then ok (seen s)
      else attempt (find_hello_key sha512 env.allocates s.client_tls.bytes true) >>= λ key.
          ok (elim key [ none ↦ seen s | some found ↦ client_hello_seen env found s ])

  unfoldable pub find_server_key : Session → Result Seen
  find_server_key s =
      if s.row.have_local_serverhello_key
      then ok (seen s)
      else attempt (find_hello_key sha512 env.allocates s.server_tls.bytes false) >>= λ key.
          ok (elim key [ none ↦ seen s | some found ↦ server_hello_seen env found s ])

  unfoldable pub observe_outbound : List ℕ → Session → Result Seen
  observe_outbound payload s = do
    appended ← attempt (buffer_append env.allocates s.client_tls payload)
    elim appended [
      | none ↦ ok (seen (append_error client_buffer_exceeded s))
      | some buffer ↦ find_client_key (record s { client_tls = buffer })
    ]

  unfoldable pub observe_inbound : List ℕ → Session → Result Seen
  observe_inbound payload s = do
    appended ← attempt (buffer_append env.allocates s.server_tls payload)
    elim appended [
      | none ↦ ok (seen (append_error server_buffer_exceeded s))
      | some buffer ↦ find_server_key (record s { server_tls = buffer })
    ]

  unfoldable pub observe : PacketView → Session → Result Seen
  observe view s =
      branch (length view.payload == 0) (ok (seen s))
        (branch view.outbound (observe_outbound view.payload s) (observe_inbound view.payload s))

-- What becomes of the packet. `had_lookup` is `have_lookup_key` as it was before.
unfoldable pub choose_action :
    InspectEnv → PacketView → ℕ → List ℕ → Bool → Session → Session × Action
choose_action env view address packet had_lookup s =
    if s.row.ra && view.outbound && not (length view.payload == 0)
    then if had_lookup && not s.decision_done
      then elim (hold_packet env address packet s) [
        | some held ↦ (held, action_hold)
        | none ↦ (append_error arena_exceeded s, action_drop)
      ]
      else if s.decision_done && not s.allowed
      then (s, action_drop)
      else (s, action_send)
    else (s, action_send)

pub record Inspected : Type 0 where
  pub session : Session
  pub action : Action
  pub submit : Bool
  pub detach : Bool

module _ (sha512 : List ℕ → Option (List ℕ)) (env : InspectEnv) where
  unfoldable pub inspect_packet : PacketView → ℕ → List ℕ → Session → Result Inspected
  inspect_packet view address packet s = do
    found ← observe sha512 env view (count_copied (length packet) s)
    let chosen =
        choose_action env view address packet s.row.have_lookup_key
          (close_seen env view found.session)
    ok (record {
      session = chosen.0;
      action = chosen.1;
      submit = found.submit;
      detach = found.detach;
    })
