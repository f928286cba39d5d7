-- ===== src/Server/Index.antt =====
-- The index by lookup key of agents/linux/tcpra_server_agent.c, an open hash table into the cache.
use Prim.Native.Nat.{bit_xor}
use tlslatch.Base.{
  ℕ, zero, suc, ◌+◌, ◌*◌, ◌%◌, ◌^◌, List, [], ◌∷◌, Option, some, none, Bool, true, false, not, ◌==◌,
  ◌||◌, leb, if◌then◌else◌, get_or, set, same_bytes,
}
use tlslatch.Slots.{Occupancy, vacant, taken, tombstone}
use tlslatch.Server.State.{IndexEntry, zero_index, cache_capacity, lookup_capacity, Agent, entry_at}
use tlslatch.Server.Cache.{or_index}

unfoldable pub hash_bytes : ℕ → List ℕ → ℕ
hash_bytes value [] = value
hash_bytes value (b ∷ bytes) = hash_bytes (bit_xor value b * 1099511628211 % 2 ^ 64) bytes

unfoldable pub lookup_hash : List ℕ → ℕ
lookup_hash lookup_key = hash_bytes 1469598103934665603 lookup_key % lookup_capacity

unfoldable pub index_from : List IndexEntry → List ℕ → ℕ → ℕ → ℕ → Option ℕ
index_from index lookup_key start zero offset = none
index_from index lookup_key start (suc left) offset =
    let slot = (start + offset) % lookup_capacity in
    let entry = get_or index slot zero_index in
    let next = index_from index lookup_key start left (offset + 1) in
    elim entry.occupancy [
      | vacant ↦ none
      | taken ↦ if same_bytes entry.lookup_key lookup_key then some slot else next
      | tombstone ↦ next
    ]

unfoldable pub find_lookup_index : List IndexEntry → List ℕ → Option ℕ
find_lookup_index index lookup_key =
    index_from index lookup_key (lookup_hash lookup_key) lookup_capacity 0

abbrev pub is_taken : Occupancy → Bool
is_taken taken = true
is_taken _ = false

-- The cache's entry that the index names, if it is in use for this key.
abbrev pub checked_entry : Agent → List ℕ → ℕ → Option ℕ
checked_entry agent lookup_key cache_slot =
    let entry = entry_at agent cache_slot in
    if leb cache_capacity cache_slot
      || not (is_taken entry.occupancy)
      || not entry.has_lookup_key
      || not (same_bytes entry.lookup_key lookup_key)
    then none
    else some cache_slot

unfoldable pub find_lookup_entry : Agent → List ℕ → Option ℕ
find_lookup_entry agent lookup_key = elim (find_lookup_index agent.lookup_index lookup_key) [
  | none ↦ none
  | some slot ↦
      checked_entry agent lookup_key (get_or agent.lookup_index slot zero_index).cache_slot
]

abbrev fresh_index : List ℕ → ℕ → IndexEntry
fresh_index lookup_key cache_slot = record {
  occupancy = taken;
  cache_slot = cache_slot;
  lookup_key = lookup_key;
}

abbrev insert_at : List IndexEntry → List ℕ → ℕ → Option ℕ → Bool × List IndexEntry
insert_at index lookup_key cache_slot none = (false, index)
insert_at index lookup_key cache_slot (some slot) =
    (true, set index slot (fresh_index lookup_key cache_slot))

unfoldable pub insert_from :
    List IndexEntry → List ℕ → ℕ → ℕ → ℕ → ℕ → Option ℕ → Bool × List IndexEntry
insert_from index lookup_key cache_slot start zero offset first_tombstone =
    insert_at index lookup_key cache_slot first_tombstone
insert_from index lookup_key cache_slot start (suc left) offset first_tombstone =
    let slot = (start + offset) % lookup_capacity in
    let entry = get_or index slot zero_index in
    let next = insert_from index lookup_key cache_slot start left (offset + 1) in
    elim entry.occupancy [
      | vacant ↦ insert_at index lookup_key cache_slot (some (or_index first_tombstone slot))
      | taken ↦
          if same_bytes entry.lookup_key lookup_key
          then (entry.cache_slot == cache_slot, index)
          else next first_tombstone
      | tombstone ↦ next (some (or_index first_tombstone slot))
    ]

unfoldable pub insert_lookup_index : List IndexEntry → List ℕ → ℕ → Bool × List IndexEntry
insert_lookup_index index lookup_key cache_slot =
    insert_from index lookup_key cache_slot (lookup_hash lookup_key) lookup_capacity 0 none

unfoldable pub delete_lookup_index : List IndexEntry → List ℕ → List IndexEntry
delete_lookup_index index lookup_key = elim (find_lookup_index index lookup_key) [
  | none ↦ index
  | some slot ↦ set index slot (record zero_index { occupancy = tombstone })
]
