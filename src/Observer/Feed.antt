-- ===== src/Observer/Feed.antt =====
-- agents/linux/pcap_observer.c: `ch_emit`, and `ch_feed`, which puts a ClientHello together.
use tlslatch.Base.{
  ℕ, ◌+◌, ◌%◌, ◌^◌, List, [], ◌∷◌, Option, some, none, Bool, true, false, length, ltb, leb, ◌==◌,
  ◌/=◌, ◌||◌, if◌then◌else◌, Result, ok, attempt, branch, read, slice, ◌>>=◌,
}
use tlslatch.Packet.{FlowKey, View}
use tlslatch.Tls.Digest.{be16}
use tlslatch.Tls.Records.{tls_find_clienthello}
use tlslatch.Observer.{Stash, Observer, Env, Call, lookup_callback, Handled, ch_record_max}
use tlslatch.Observer.Stashes.{
  stash_at, put_stash, released, ch_find_stash, ch_clear_stash, ch_claim_stash, store,
}

-- The return values 1, 0 and -1 of `ch_emit`.
pub data Verdict : Type 0 where
  emitted no_hello postponed : Verdict

pub record Emission : Type 0 where
  pub verdict : Verdict
  pub observer : Observer
  pub calls : List Call

abbrev pub is_emitted : Verdict → Bool
is_emitted emitted = true
is_emitted _ = false

abbrev pub is_postponed : Verdict → Bool
is_postponed postponed = true
is_postponed _ = false

-- The end of a packet's bytes in the sequence space, without the length of the TCP header.
abbrev pub raw_end_of : View → ℕ
raw_end_of view = (view.raw_sequence + length view.payload) % 2 ^ 32

abbrev pub count_deferred : Observer → Observer
count_deferred observer = record observer { ch_deferred = observer.ch_deferred + 1 }

unfoldable pub emit_key : Env → Observer → FlowKey → Option (List ℕ) → Emission
emit_key env observer flow none = record { verdict = no_hello; observer = observer; calls = [] }
emit_key env observer flow (some lookup_key) =
    if observer.force_once
    then record {
      verdict = postponed;
      observer = record observer { force_once = false };
      calls = [];
    }
    else elim (env.socket_cookie flow) [
      | none ↦ record { verdict = postponed; observer = observer; calls = [] }
      | some cookie ↦ record {
        verdict = emitted;
        observer = observer;
        calls = lookup_callback flow lookup_key env.now_ns cookie ∷ [];
      }
    ]

abbrev pub cleared : Env → Observer → FlowKey → Handled
cleared env observer flow = record {
  observer = ch_clear_stash env.now_ns flow observer;
  calls = [];
}

-- What becomes of a stash that is full.
abbrev pub settled : View → Verdict → Stash → Stash
settled view postponed slot = record slot { deferred = true; raw_end = raw_end_of view }
settled view _ slot = released slot

abbrev pub count_settled : Verdict → Observer → Observer
count_settled postponed observer =
    count_deferred (record observer { ch_reassembled = observer.ch_reassembled + 1 })
count_settled _ observer = record observer { ch_reassembled = observer.ch_reassembled + 1 }

module _ (sha512 : List ℕ → Option (List ℕ)) where
  unfoldable pub ch_emit : Env → Observer → FlowKey → List ℕ → Result Emission
  ch_emit env observer flow bytes = do
    lookup_key ← attempt (tls_find_clienthello sha512 bytes)
    ok (emit_key env observer flow lookup_key)

  -- A whole ClientHello that was not reported waits for the answer to it.
  unfoldable pub defer_whole : Env → Observer → FlowKey → View → ℕ → Result Handled
  defer_whole env observer flow view needed = do
    let claim = ch_claim_stash env.now_ns flow observer
    bytes ← slice view.payload 0 needed
    buf ← store (stash_at claim.0 claim.1).buf 0 bytes
    ok (record {
      observer = count_deferred (
          put_stash claim.0 claim.1 (record (stash_at claim.0 claim.1) {
            buf = buf;
            filled = needed;
            needed = needed;
            deferred = true;
            raw_end = raw_end_of view;
          }));
      calls = [];
    })

  unfoldable pub feed_whole : Env → Observer → FlowKey → View → ℕ → Result Handled
  feed_whole env observer flow view needed =
      branch (leb needed ch_record_max)
        (do
          bytes ← slice view.payload 0 needed
          lookup_key ← attempt (tls_find_clienthello sha512 bytes)
          elim lookup_key [
            | some _ ↦ defer_whole env observer flow view needed
            | none ↦ ok (cleared env observer flow)
          ])
        (ok (cleared env observer flow))

  unfoldable pub feed_first : Env → Observer → FlowKey → View → ℕ → Result Handled
  feed_first env observer flow view needed = do
    let claim = ch_claim_stash env.now_ns flow observer
    buf ← store (stash_at claim.0 claim.1).buf 0 view.payload
    ok (record {
      observer =
          record (put_stash claim.0 claim.1 (record (stash_at claim.0 claim.1) {
            buf = buf;
            filled = length view.payload;
            needed = needed;
            next_seq = (view.sequence + length view.payload) % 2 ^ 32;
          })) { ch_split = claim.0.ch_split + 1 };
      calls = [];
    })

  -- A packet that begins with a handshake record of `needed` bytes.
  unfoldable pub feed_record : Env → Observer → FlowKey → View → ℕ → Result Handled
  feed_record env observer flow view needed =
      branch (leb needed (length view.payload)) (feed_whole env observer flow view needed) (
        branch (ltb ch_record_max needed) (ok (cleared env observer flow))
          (feed_first env observer flow view needed))

  -- `slot` is what place `i` holds.
  unfoldable pub feed_grown : Env → Observer → ℕ → Stash → FlowKey → View → Result Handled
  feed_grown env observer i slot flow view =
      branch (slot.filled == slot.needed)
        (do
          bytes ← slice slot.buf 0 slot.filled
          emission ← ch_emit env observer flow bytes
          ok (record {
            observer =
                count_settled emission.verdict
                  (put_stash emission.observer i (settled view emission.verdict slot));
            calls = emission.calls;
          }))
        (ok (record { observer = observer; calls = [] }))

  unfoldable pub feed_next : Env → Observer → ℕ → Stash → FlowKey → View → Result Handled
  feed_next env observer i slot flow view =
      branch (view.sequence /= slot.next_seq || ltb slot.needed (slot.filled + length view.payload))
        (ok (record { observer = observer; calls = [] }))
        (do
          buf ← store slot.buf slot.filled view.payload
          let grown = record slot {
            buf = buf;
            filled = slot.filled + length view.payload;
            next_seq = (slot.next_seq + length view.payload) % 2 ^ 32;
          }
          feed_grown env (put_stash observer i grown) i grown flow view)

  unfoldable pub feed_rest : Env → Observer → FlowKey → View → Result Handled
  feed_rest env observer flow view =
      let (found, place) = ch_find_stash env.now_ns flow observer in
      elim place [
        | none ↦ ok (record { observer = found; calls = [] })
        | some i ↦ feed_next env found i (stash_at found i) flow view
      ]

  unfoldable pub ch_feed : Env → Observer → FlowKey → View → Result Handled
  ch_feed env observer flow view =
      branch (leb 5 (length view.payload))
        (do
          content_type ← read view.payload 0
          branch (content_type == 22)
              (do
                high ← read view.payload 3
                low ← read view.payload 4
                feed_record env observer flow view (5 + be16 high low))
              (feed_rest env observer flow view))
        (feed_rest env observer flow view)
