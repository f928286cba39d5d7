-- ===== src/Observer/Stashes.antt =====
-- agents/linux/pcap_observer.c: the table of stashes.
use tlslatch.Base.{
  ℕ, suc, ◌+◌, ◌-◌, ◌%◌, ◌^◌, List, [], ◌∷◌, ◌++◌, Option, some, none, Bool, true, false, not,
  length, get_or, set, take, ltb, leb, ◌==◌, ◌&&◌, if◌then◌else◌, Result, ok, fault, branch,
}
use tlslatch.Packet.{FlowKey}
use tlslatch.Observer.{Stash, Observer, ch_record_max, ch_stash_ttl_ns}

abbrev pub ch_same_flow : FlowKey → FlowKey → Bool
ch_same_flow a b =
    a.client_ip == b.client_ip
    && a.server_ip == b.server_ip
    && a.client_port == b.client_port
    && a.server_port == b.server_port

abbrev pub zero_flow : FlowKey
zero_flow = record { client_ip = 0; server_ip = 0; client_port = 0; server_port = 0 }

-- `memset(slot, 0, sizeof(*slot))`
abbrev pub zero_stash : Stash
zero_stash = record {
  used = false;
  deferred = false;
  raw_end = 0;
  flow = zero_flow;
  next_seq = 0;
  filled = 0;
  needed = 0;
  born_ns = 0;
  buf = [];
}

abbrev pub stash_at : Observer → ℕ → Stash
stash_at observer i = get_or observer.stashes i zero_stash

abbrev pub put_stash : Observer → ℕ → Stash → Observer
put_stash observer i slot = record observer { stashes = set observer.stashes i slot }

-- `slot->used = 0;`
abbrev pub released : Stash → Stash
released slot = record slot { used = false }

-- `now - slot->born_ns > TCPRA_CH_STASH_TTL_NS`, on 64 bits
unfoldable pub is_stale : ℕ → Stash → Bool
is_stale now slot = ltb ch_stash_ttl_ns ((now + 2 ^ 64 - slot.born_ns) % 2 ^ 64)

-- What the search leaves of the slots, how many it found stale, and where it ended.
pub record Search : Type 0 where
  pub slots : List Stash
  pub stale : ℕ
  pub place : Option ℕ

abbrev pub next_place : Option ℕ → Option ℕ
next_place none = none
next_place (some i) = some (suc i)

abbrev pub passed : Stash → ℕ → Search → Search
passed slot stale next = record {
  slots = slot ∷ next.slots;
  stale = stale + next.stale;
  place = next_place next.place;
}

unfoldable pub find_from : ℕ → FlowKey → List Stash → Search
find_from now flow [] = record { slots = []; stale = 0; place = none }
find_from now flow (slot ∷ rest) =
    let next = find_from now flow rest in
    if not slot.used
    then passed slot 0 next
    else if is_stale now slot
    then passed (released slot) 1 next
    else if ch_same_flow slot.flow flow
    then record { slots = slot ∷ rest; stale = 0; place = some 0 }
    else passed slot 0 next

-- `ch_find_stash`: the observer without the stale stashes before the one found, and that one's place.
abbrev pub searched : Observer → Search → Observer
searched observer search = record observer {
  stashes = search.slots;
  ch_stale = observer.ch_stale + search.stale;
}

unfoldable pub ch_find_stash : ℕ → FlowKey → Observer → Observer × Option ℕ
ch_find_stash now flow observer =
    let search = find_from now flow observer.stashes in (searched observer search, search.place)

unfoldable pub ch_clear_stash : ℕ → FlowKey → Observer → Observer
ch_clear_stash now flow observer =
    let (found, place) = ch_find_stash now flow observer in
    elim place [ none ↦ found | some i ↦ put_stash found i (released (stash_at found i)) ]

-- The loop of `ch_claim_stash`, at slot `i`, when `slot` with the time `born` is the oldest before it.
unfoldable pub free_or_oldest : List Stash → ℕ → ℕ → ℕ → ℕ
free_or_oldest [] i slot born = slot
free_or_oldest (s ∷ rest) i slot born =
    let older = free_or_oldest rest (i + 1) i s.born_ns in
    let kept = free_or_oldest rest (i + 1) slot born in
    if not s.used then i else if ltb s.born_ns born then older else kept

-- The slot as it is claimed.
abbrev pub new_stash : ℕ → FlowKey → Stash
new_stash now flow = record zero_stash { used = true; flow = flow; born_ns = now }

unfoldable pub ch_claim_stash : ℕ → FlowKey → Observer → Observer × ℕ
ch_claim_stash now flow observer =
    let (found, place) = ch_find_stash now flow observer in
    elim place [
      | some i ↦
          (put_stash (record found { ch_stale = found.ch_stale + 1 }) i (new_stash now flow), i)
      | none ↦
          let i = free_or_oldest found.stashes 0 0 (stash_at found 0).born_ns in
          (put_stash found i (new_stash now flow), i)
    ]

-- `memcpy(slot->buf + at, bytes, length)`; the bytes behind `buf` are not part of it.
unfoldable pub store : List ℕ → ℕ → List ℕ → Result (List ℕ)
store buf at bytes =
    branch (leb (at + length bytes) ch_record_max) (ok (take at buf ++ bytes)) fault
