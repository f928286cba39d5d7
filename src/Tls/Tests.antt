-- ===== src/Tls/Tests.antt =====
-- Examples for the theorems on agents/linux/tls_parse.c.
use tlslatch.Base.{ℕ, List, [], ◌∷◌, Option, some, ◌≡◌, refl, replicate, arith, ok, Safe, get_or}
use tlslatch.Tls.Hello.{extract_clienthello_lookup, extract_serverhello}
use tlslatch.Tls.Records.{
  find_handshake, tls_find_clienthello, tls_find_serverhello, tls_contains_encrypted_record,
}
use tlslatch.Tls.Safety.{IsKey, IsShare}
use tlslatch.Tls.Format.{
  ClientHello, ServerHello, client_shares, server_share, other, put_clienthello, put_serverhello,
  lookup_key, server_key,
}
use tlslatch.Tls.Stream.{TlsRecord, handshake, opaque, put_records, first_in_records, any_encrypted}
use tlslatch.Tls.Walk.{tls_find_clienthello-Safe, tls_find_serverhello-Safe}
use tlslatch.Tls.RoundTrip.Client.{extract_clienthello_lookup-put}
use tlslatch.Tls.RoundTrip.Server.{extract_serverhello-put}
use tlslatch.Tls.RoundTrip.Stream.{find_handshake-put, contains_encrypted_record-put}

abbrev sha512 : List ℕ → Option (List ℕ)
sha512 bytes = some (replicate 64 (get_or bytes 0 0))

abbrev client : ClientHello
client = record {
  version_and_random = replicate 34 3;
  session_id = 1 ∷ [];
  suites = 19 ∷ 1 ∷ [];
  compression = 0 ∷ [];
  extensions = other 10 (0 ∷ 2 ∷ []) ∷ client_shares (0 ∷ 29 ∷ 0 ∷ 1 ∷ 9 ∷ []) ∷ [];
}

abbrev server : ServerHello
server = record {
  version_and_random = replicate 34 3;
  session_id = 1 ∷ [];
  suite = 4865;
  compression = 0;
  extensions = other 43 (3 ∷ 4 ∷ []) ∷ server_share 29 (9 ∷ 8 ∷ []) ∷ [];
}

abbrev records : List TlsRecord
records =
    opaque 20 3 3 (1 ∷ [])
    ∷ handshake 3 3 (record { kind = 8; body = 0 ∷ 0 ∷ [] } ∷ [])
    ∷ opaque 23 3 3 (5 ∷ 6 ∷ [])
    ∷ []

extract_clienthello_lookup-put_example :
    extract_clienthello_lookup sha512 (put_clienthello client (4 ∷ []))
    ≡ lookup_key sha512 client.extensions
extract_clienthello_lookup-put_example =
    extract_clienthello_lookup-put sha512 (put_clienthello client (4 ∷ [])) client (4 ∷ [])
      (record {
        front = refl;
        session_id_fits = omega arith;
        suites_fit = omega arith;
        compression_fits = omega arith;
        extensions_fit = omega arith;
        each = ((omega arith, omega arith, omega arith), (omega arith, tt));
      })
      refl

extract_serverhello-put_example :
    extract_serverhello sha512 (put_serverhello server []) ≡ server_key sha512 server.extensions
extract_serverhello-put_example =
    extract_serverhello-put sha512 (put_serverhello server []) server []
      (record {
        front = refl;
        session_id_fits = omega arith;
        extensions_fit = omega arith;
        each = ((omega arith, omega arith, omega arith), ((omega arith, omega arith), tt));
      })
      refl

find_handshake-put_example :
    find_handshake sha512 2 (put_records records (0 ∷ [])) ≡ first_in_records sha512 2 records
find_handshake-put_example =
    find_handshake-put (put_records records (0 ∷ [])) sha512 2 records (0 ∷ [])
      (
        (omega arith, omega arith),
        (((omega arith, tt), omega arith), ((omega arith, omega arith), tt)),
      )
      (omega arith) refl

contains_encrypted_record-put_example :
    tls_contains_encrypted_record (put_records records []) ≡ ok (any_encrypted records)
contains_encrypted_record-put_example =
    contains_encrypted_record-put (put_records records []) records []
      (
        (omega arith, omega arith),
        (((omega arith, tt), omega arith), ((omega arith, omega arith), tt)),
      )
      (omega arith) refl

tls_find_clienthello-Safe_example :
    Safe IsKey (tls_find_clienthello sha512 (22 ∷ 3 ∷ 3 ∷ 0 ∷ 4 ∷ 1 ∷ 0 ∷ 0 ∷ 9 ∷ []))
tls_find_clienthello-Safe_example =
    tls_find_clienthello-Safe sha512 (22 ∷ 3 ∷ 3 ∷ 0 ∷ 4 ∷ 1 ∷ 0 ∷ 0 ∷ 9 ∷ [])

tls_find_serverhello-Safe_example :
    Safe IsShare (tls_find_serverhello sha512 (22 ∷ 3 ∷ 3 ∷ 0 ∷ 4 ∷ 2 ∷ 0 ∷ 0 ∷ 9 ∷ []))
tls_find_serverhello-Safe_example =
    tls_find_serverhello-Safe sha512 (22 ∷ 3 ∷ 3 ∷ 0 ∷ 4 ∷ 2 ∷ 0 ∷ 0 ∷ 9 ∷ [])
