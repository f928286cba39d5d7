-- ===== src/Server/Cache.antt =====
-- The cache of agents/linux/tcpra_server_agent.c, an open hash table by route: the searches.
use Prim.Native.Nat.{bit_xor}
use tlslatch.Base.{
  ℕ, zero, suc, ◌+◌, ◌*◌, ◌/◌, ◌%◌, ◌^◌, List, Option, some, none, Bool, true, not, ◌==◌, ◌&&◌, ltb,
  if◌then◌else◌, get_or, same_bytes,
}
use tlslatch.Slots.{vacant, taken, tombstone}
use tlslatch.Packet.{FlowKey}
use tlslatch.Server.State.{CacheEntry, zero_entry, cache_capacity, same_flow}

-- `value >> 33`
abbrev mix : ℕ → ℕ
mix value = bit_xor value (value / 2 ^ 33)

unfoldable pub route_hash : FlowKey → ℕ
route_hash flow =
    let value = bit_xor flow.client_ip (flow.client_port * 2 ^ 32 + flow.server_port) in
    mix (mix value * 0xff51afd7ed558ccd % 2 ^ 64) % cache_capacity

-- The first tombstone met, or else this slot.
abbrev pub or_index : Option ℕ → ℕ → ℕ
or_index none index = index
or_index (some first_tombstone) index = first_tombstone

-- The loops over `offset`, with the rounds left. `SERVER_CACHE_CAPACITY` as an answer is `none`.
unfoldable pub new_slot_from : List CacheEntry → ℕ → ℕ → ℕ → Option ℕ → Option ℕ
new_slot_from cache start zero offset first_tombstone = first_tombstone
new_slot_from cache start (suc left) offset first_tombstone =
    let index = (start + offset) % cache_capacity in
    let next = new_slot_from cache start left (offset + 1) in
    elim (get_or cache index zero_entry).occupancy [
      | vacant ↦ some (or_index first_tombstone index)
      | taken ↦ next first_tombstone
      | tombstone ↦ next (some (or_index first_tombstone index))
    ]

unfoldable pub cache_new_slot : List CacheEntry → FlowKey → Option ℕ
cache_new_slot cache flow = new_slot_from cache (route_hash flow) cache_capacity 0 none

-- The search for the newest entry that passes a test, up to the first vacant slot.
abbrev is_newer : (CacheEntry → ℕ) → List CacheEntry → Option ℕ → CacheEntry → Bool
is_newer age cache none entry = true
is_newer age cache (some result) entry = ltb (age (get_or cache result zero_entry)) (age entry)

unfoldable pub newest_from :
    (CacheEntry → Bool) → (CacheEntry → ℕ) → List CacheEntry → ℕ → ℕ → ℕ → Option ℕ → Option ℕ
newest_from wanted age cache start zero offset result = result
newest_from wanted age cache start (suc left) offset result =
    let index = (start + offset) % cache_capacity in
    let entry = get_or cache index zero_entry in
    let next = newest_from wanted age cache start left (offset + 1) in
    elim entry.occupancy [
      | vacant ↦ result
      | taken ↦
          next (if wanted entry && is_newer age cache result entry then some index else result)
      | tombstone ↦ next result
    ]

abbrev is_report_orphan : FlowKey → ℕ → CacheEntry → Bool
is_report_orphan wanted cookie entry =
    entry.socket_cookie == cookie
    && not entry.has_lookup_key
    && entry.has_report_key
    && same_flow entry.flow wanted

unfoldable pub find_newest_report_orphan : List CacheEntry → FlowKey → ℕ → Option ℕ
find_newest_report_orphan cache wanted cookie =
    newest_from (is_report_orphan wanted cookie) (λ entry. entry.observed_ns) cache
      (route_hash wanted) cache_capacity 0 none

abbrev is_lookup_placeholder : FlowKey → ℕ → CacheEntry → Bool
is_lookup_placeholder flow cookie entry =
    entry.socket_cookie == cookie
    && entry.has_lookup_key
    && entry.lookup_observed
    && not entry.has_report_key
    && same_flow entry.flow flow

unfoldable pub find_newest_lookup_placeholder : List CacheEntry → FlowKey → ℕ → Option ℕ
find_newest_lookup_placeholder cache flow cookie =
    newest_from (is_lookup_placeholder flow cookie) (λ entry. entry.lookup_observed_ns) cache
      (route_hash flow) cache_capacity 0 none

abbrev is_generation : FlowKey → List ℕ → ℕ → CacheEntry → Bool
is_generation flow report_key cookie entry =
    entry.socket_cookie == cookie
    && entry.has_report_key
    && same_flow entry.flow flow
    && same_bytes entry.report_key report_key

-- The first entry that passes a test, up to the first vacant slot.
unfoldable pub first_from : (CacheEntry → Bool) → List CacheEntry → ℕ → ℕ → ℕ → Option ℕ
first_from wanted cache start zero offset = none
first_from wanted cache start (suc left) offset =
    let index = (start + offset) % cache_capacity in
    let entry = get_or cache index zero_entry in
    let next = first_from wanted cache start left (offset + 1) in
    elim entry.occupancy [
      | vacant ↦ none
      | taken ↦ if wanted entry then some index else next
      | tombstone ↦ next
    ]

unfoldable pub find_report_generation : List CacheEntry → FlowKey → List ℕ → ℕ → Option ℕ
find_report_generation cache flow report_key cookie =
    first_from (is_generation flow report_key cookie) cache (route_hash flow) cache_capacity 0
