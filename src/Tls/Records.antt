-- ===== src/Tls/Records.antt =====
-- The record layer of agents/linux/tls_parse.c: `find_handshake` with its two callers, and
-- `tcpra_tls_contains_encrypted_record`.
use tlslatch.Base.{
  ℕ, zero, suc, ◌+◌, List, Option, none, some, Bool, true, false, length, ltb, ◌==◌, ◌&&◌, read,
  slice, Result, ok, reject, stuck, ◌>>=◌, ◌>>◌, reject_if, branch,
}
use tlslatch.Tls.Digest.{read16, read24}
use tlslatch.Tls.Hello.{ServerShare, extract_clienthello_lookup, extract_serverhello}

-- What `find_handshake` stores: `lookup_key` if `wanted` is 1, the other pointers if it is not.
pub data Found : Type 0 where
  client_hello : List ℕ → Found
  server_hello : ServerShare → Found

-- What the callers take from it.
unfoldable pub lookup_key_of : Found → Result (List ℕ)
lookup_key_of (client_hello lookup_key) = ok lookup_key
lookup_key_of (server_hello share) = reject

unfoldable pub share_of : Found → Result ServerShare
share_of (client_hello lookup_key) = reject
share_of (server_hello share) = ok share

-- A `return` inside the inner loop leaves the outer loop too.
unfoldable pub return_or : Option Found → Result Found → Result Found
return_or (some result) next = ok result
return_or none next = next

module _ (sha512 : List ℕ → Option (List ℕ)) where
  -- The two `return`s of the loop over the messages.
  unfoldable pub extract_wanted : ℕ → List ℕ → Result Found
  extract_wanted wanted message =
      branch (wanted == 1)
        (do lookup_key ← extract_clienthello_lookup sha512 message; ok (client_hello lookup_key))
        (do share ← extract_serverhello sha512 message; ok (server_hello share))

  -- The loop over the messages of one record; `ok none` is its end without a `return`.
  unfoldable pub find_in_record : ℕ → List ℕ → ℕ → ℕ → ℕ → Result (Option Found)
  find_in_record zero buffer wanted position end = stuck
  find_in_record (suc fuel) buffer wanted position end =
      branch (ltb end (position + 4)) (ok none) (do
        handshake_length ← read24 buffer (position + 1)
        branch (ltb end (position + 4 + handshake_length)) (ok none) (do
          message ← read buffer position
          branch (message == wanted)
              (do
                message ← slice buffer position (4 + handshake_length)
                found ← extract_wanted wanted message
                ok (some found))
              (find_in_record fuel buffer wanted (position + 4 + handshake_length) end)))

  unfoldable pub find_records : ℕ → List ℕ → ℕ → ℕ → Result Found
  find_records zero buffer wanted offset = stuck
  find_records (suc fuel) buffer wanted offset = do
    reject_if (ltb (length buffer) (offset + 5))
    content_type ← read buffer offset
    record_length ← read16 buffer (offset + 3)
    reject_if (ltb (length buffer) (offset + 5 + record_length))
    found ←
        branch (content_type == 22)
          (find_in_record (length buffer) buffer wanted (offset + 5) (offset + 5 + record_length))
          (ok none)
    let next = find_records fuel buffer wanted (offset + 5 + record_length)
    return_or found next

  unfoldable pub find_handshake : ℕ → List ℕ → Result Found
  find_handshake wanted buffer = find_records (length buffer + 1) buffer wanted 0

  unfoldable pub tls_find_clienthello : List ℕ → Result (List ℕ)
  tls_find_clienthello buffer = find_handshake 1 buffer >>= lookup_key_of

  unfoldable pub tls_find_serverhello : List ℕ → Result ServerShare
  tls_find_serverhello buffer = find_handshake 2 buffer >>= share_of

unfoldable pub encrypted_records : ℕ → List ℕ → ℕ → Result Bool
encrypted_records zero buffer offset = stuck
encrypted_records (suc fuel) buffer offset =
    branch (ltb (length buffer) (offset + 5)) (ok false) (do
      record_length ← read16 buffer (offset + 3)
      branch (ltb (length buffer) (offset + 5 + record_length)) (ok false) (do
        content_type ← read buffer offset
        branch (content_type == 23 && ltb 0 record_length) (ok true)
            (encrypted_records fuel buffer (offset + 5 + record_length))))

unfoldable pub tls_contains_encrypted_record : List ℕ → Result Bool
tls_contains_encrypted_record buffer = encrypted_records (length buffer + 1) buffer 0
