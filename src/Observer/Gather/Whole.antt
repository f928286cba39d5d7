-- ===== src/Observer/Gather/Whole.antt =====
-- agents/linux/pcap_observer.c: a ClientHello is reported when its last segment has come.
use tlslatch.Base.{
  ℕ, ◌+◌, ◌%◌, ◌^◌, ◌≤◌, ◌<◌, ◌≡◌, ◌≢◌, ◌⊎◌, List, [], ◌∷◌, ◌++◌, Option, some, length, get_or,
  Result, ok, ◌>>=◌,
}
use tlslatch.Packet.{FlowKey, View}
use tlslatch.Tls.Digest.{be16}
use tlslatch.Observer.{Observer, Env, Handled, ch_stash_ttl_ns}
use tlslatch.Observer.Feed.{ch_feed}

-- Segments of one flow, each with what the system answers while it is handled.
abbrev pub Segments : Type 0
Segments = List (Env × View)

abbrev pub payloads : Segments → List ℕ
payloads [] = []
payloads (segment ∷ rest) = segment.1.payload ++ payloads rest

-- The packet begins a handshake record of `needed` bytes, with its header.
pub record Begins (view : View) (needed : ℕ) : Type 0 where
  pub header : 5 ≤ length view.payload
  pub handshake : get_or view.payload 0 0 ≡ 22
  pub size : 5 + be16 (get_or view.payload 3 0) (get_or view.payload 4 0) ≡ needed

-- The packet goes on where the sequence number `seq` is: that of its view, which is the segment's plus
-- the length of its TCP header, so that the TCP headers are of one length. It is not taken for the beginning of a record,
-- and comes while the stash born at `born` is not stale.
pub record Follows (born seq : ℕ) (env : Env) (view : View) : Type 0 where
  pub in_order : view.sequence ≡ seq
  pub no_header : (length view.payload < 5) ⊎ (get_or view.payload 0 0 ≢ 22)
  pub after : born ≤ env.now_ns
  pub in_time : env.now_ns ≤ born + ch_stash_ttl_ns

-- The segments bring the rest of the record, of which `filled` bytes have come; the last one comes at
-- `now`, when the socket of the flow has the cookie.
pub data Rest (flow : FlowKey) (born needed now cookie : ℕ) : ℕ → ℕ → Segments → Type 0 where
  last :
      {seq filled : ℕ} (env : Env) (view : View)
      → Follows born seq env view
      → filled + length view.payload ≡ needed
      → env.socket_cookie flow ≡ some cookie
      → env.now_ns ≡ now
      → Rest flow born needed now cookie seq filled ((env, view) ∷ [])
  next :
      {seq filled : ℕ} {more : Segments} (env : Env) (view : View)
      → Follows born seq env view
      → filled + length view.payload < needed
      → Rest flow born needed now cookie
          ((seq + length view.payload) % 2 ^ 32)
          (filled + length view.payload)
          more
      → Rest flow born needed now cookie seq filled ((env, view) ∷ more)

module _ (sha512 : List ℕ → Option (List ℕ)) (flow : FlowKey) where
  -- `ch_feed` for one segment after another.
  unfoldable pub feed_all : Segments → Observer → Result Handled
  feed_all [] observer = ok (record { observer = observer; calls = [] })
  feed_all (segment ∷ rest) observer = do
    fed ← ch_feed sha512 segment.0 observer flow segment.1
    others ← feed_all rest fed.observer
    ok (record { observer = others.observer; calls = fed.calls ++ others.calls })
