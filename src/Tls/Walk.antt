-- ===== src/Tls/Walk.antt =====
-- `find_handshake` and `tcpra_tls_contains_encrypted_record` of agents/linux/tls_parse.c walk records
-- and messages inside the buffer, and end.
use tlslatch.Base.{
  ℕ, zero, suc, ◌+◌, ◌≤◌, ◌<◌, List, Option, none, some, length, arith, Result, Safe, returns,
  rejects, Safe->>=, Safe-reject_if, Safe-branch, Safe-read, Safe-slice,
}
use tlslatch.Tls.Safety.{
  IsKey, IsShare, Safe-read16, Safe-read24, extract_clienthello_lookup-Safe,
  extract_serverhello-Safe,
}
use tlslatch.Tls.Records.{
  Found, client_hello, server_hello, lookup_key_of, share_of, return_or, extract_wanted,
  find_in_record, find_records, find_handshake, tls_find_clienthello, tls_find_serverhello,
}

abbrev IsFound : Found → Type 0
IsFound (client_hello key) = IsKey key
IsFound (server_hello share) = IsShare share

abbrev IsFound? : Option Found → Type 0
IsFound? none = Unit
IsFound? (some found) = IsFound found

return_or-Safe :
    (found : Option Found) (next : Result Found)
    → IsFound? found
    → Safe IsFound next
    → Safe IsFound (return_or found next)
unfolding return_or
return_or-Safe none next p h = h
return_or-Safe (some found) next p h = returns found p

lookup_key_of-Safe : (found : Found) → IsFound found → Safe IsKey (lookup_key_of found)
unfolding lookup_key_of
lookup_key_of-Safe (client_hello key) p = returns key p
lookup_key_of-Safe (server_hello share) p = rejects

share_of-Safe : (found : Found) → IsFound found → Safe IsShare (share_of found)
unfolding share_of
share_of-Safe (client_hello key) p = rejects
share_of-Safe (server_hello share) p = returns share p

module _ (sha512 : List ℕ → Option (List ℕ)) where
  extract_wanted-Safe :
      (wanted : ℕ) (message : List ℕ) → Safe IsFound (extract_wanted sha512 wanted message)
  unfolding extract_wanted
  extract_wanted-Safe wanted message =
      Safe-branch _ _ _
        (λ _. Safe->>= _ _ (extract_clienthello_lookup-Safe sha512 message) λ key p. returns _ p)
        (λ _. Safe->>= _ _ (extract_serverhello-Safe sha512 message) λ share p. returns _ p)

  find_in_record-Safe :
      (fuel : ℕ) (buffer : List ℕ) (wanted position end : ℕ)
      → position ≤ end
      → end ≤ length buffer
      → end < position + fuel
      → Safe IsFound? (find_in_record sha512 fuel buffer wanted position end)
  unfolding find_in_record
  find_in_record-Safe zero buffer wanted position end l h m = absurd (omega arith)
  find_in_record-Safe (suc fuel) buffer wanted position end l h m =
      Safe-branch _ _ _ (λ _. returns none tt)
        λ more. Safe-read24 _ _ _ (ground arith) λ n.
          Safe-branch _ _ _ (λ _. returns none tt)
            λ fits. Safe-read _ _ _ (ground arith) λ message.
              Safe-branch _ _ _
                (λ _. Safe-slice _ _ _ _ (ground arith) λ part e.
                  Safe->>= _ _ (extract_wanted-Safe wanted part) λ found p. returns (some found) p)
                (λ _.
                  find_in_record-Safe fuel buffer wanted (position + 4 + n) end (ground arith) h
                    (omega arith))

  find_records-Safe :
      (fuel : ℕ) (buffer : List ℕ) (wanted offset : ℕ)
      → offset ≤ length buffer
      → length buffer < offset + fuel
      → Safe IsFound (find_records sha512 fuel buffer wanted offset)
  unfolding find_records
  find_records-Safe zero buffer wanted offset l m = absurd (omega arith)
  find_records-Safe (suc fuel) buffer wanted offset l m = Safe-reject_if _ _ λ more.
      Safe-read _ _ _ (ground arith) λ content_type. Safe-read16 _ _ _ (ground arith) λ n.
        Safe-reject_if _ _ λ fits.
          Safe->>= _ _
            (Safe-branch {Q = IsFound?} _ _ _
              (λ _.
                find_in_record-Safe _ buffer wanted (offset + 5) _ (omega arith) (ground arith)
                  (ground arith))
              (λ _. returns none tt))
            λ found p.
              return_or-Safe found _ p
                (find_records-Safe fuel buffer wanted (offset + 5 + n) (ground arith) (omega arith))

  -- For any captured bytes, `tcpra_tls_find_clienthello` reads inside them, all its loops end, and a
  -- lookup key that it stores has 64 bytes.
  pub tls_find_clienthello-Safe :
      (buffer : List ℕ) → Safe IsKey (tls_find_clienthello sha512 buffer)
  unfolding tls_find_clienthello find_handshake
  tls_find_clienthello-Safe buffer =
      Safe->>= _ _ (find_records-Safe _ buffer 1 0 (omega arith) (omega arith)) lookup_key_of-Safe

  -- For any captured bytes, `tcpra_tls_find_serverhello` reads inside them, all its loops end, and
  -- what it stores is a public key of 1 to 128 bytes, its length, and a report key of 64 bytes.
  pub tls_find_serverhello-Safe :
      (buffer : List ℕ) → Safe IsShare (tls_find_serverhello sha512 buffer)
  unfolding tls_find_serverhello find_handshake
  tls_find_serverhello-Safe buffer =
      Safe->>= _ _ (find_records-Safe _ buffer 2 0 (omega arith) (omega arith)) share_of-Safe
