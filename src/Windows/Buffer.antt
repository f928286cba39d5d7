-- ===== src/Windows/Buffer.antt =====
-- agents/windows/tcpra_agent_c.c: the buffers that grow, up to 256 KiB.
use tlslatch.Base.{
  ℕ, zero, suc, ◌+◌, ◌-◌, ◌*◌, ◌/◌, List, ◌++◌, Option, some, none, Bool, ltb, leb, ◌==◌, ◌&&◌,
  ◌||◌, if◌then◌else◌, length, Result, ok, reject, fault, branch, ◌>>=◌,
}
use tlslatch.Windows.{ByteBuffer, tls_cap}

-- The loop that doubles the capacity.
unfoldable pub grow : ℕ → ℕ → ℕ → ℕ
grow zero capacity wanted = capacity
grow (suc fuel) capacity wanted =
    let next = grow fuel (capacity * 2) wanted in
    if ltb capacity wanted && ltb capacity (tls_cap / 2) then next else capacity

-- The capacity that is asked of `realloc`. From one byte on, 17 rounds come to half of the limit.
unfoldable pub new_capacity : ℕ → ℕ → ℕ
new_capacity capacity wanted =
    let grown = grow 18 (if capacity == 0 then 4096 else capacity) wanted in
    if ltb grown wanted then tls_cap else grown

-- Room for `wanted` bytes, if `realloc` gives it: `allocates` is its answer for a size.
unfoldable pub reserve : (ℕ → Bool) → ℕ → ℕ → Option ℕ
reserve allocates capacity wanted =
    if ltb capacity wanted
    then if allocates (new_capacity capacity wanted)
      then some (new_capacity capacity wanted)
      else none
    else some capacity

-- `memcpy(data + length, part, n)`; a write past the capacity is `fault`.
unfoldable pub append_within : ℕ → List ℕ → List ℕ → Result (List ℕ)
append_within capacity bytes part =
    branch (leb (length bytes + length part) capacity) (ok (bytes ++ part)) fault

-- `return false` is `reject`.
unfoldable pub buffer_append : (ℕ → Bool) → ByteBuffer → List ℕ → Result ByteBuffer
buffer_append allocates buffer part = branch (length part == 0) (ok buffer) (
    branch (leb tls_cap (length buffer.bytes) || ltb (tls_cap - length buffer.bytes) (length part))
      reject
      (elim (reserve allocates buffer.capacity (length buffer.bytes + length part)) [
        | none ↦ reject
        | some capacity ↦ do
          bytes ← append_within capacity buffer.bytes part
          ok (record { bytes = bytes; capacity = capacity })
      ]))
