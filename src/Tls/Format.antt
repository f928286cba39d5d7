-- ===== src/Tls/Format.antt =====
-- The messages that agents/linux/tls_parse.c parses, as RFC 8446 lays them out: a printer for each,
-- which takes the bytes that follow, and what the agent is to find in it.
use tlslatch.Base.{
  ℕ, ◌+◌, ◌/◌, ◌%◌, ◌<◌, ◌≡◌, ◌≢◌, arith, length-append, List, [], ◌∷◌, ◌++◌, Option, length, ltb,
  leb, ◌==◌, ◌||◌, Result, ok, reject, ◌>>=◌, ◌>>◌, reject_if, branch,
}
use tlslatch.Tls.Digest.{clienthello_label, serverhello_label, digest}
use tlslatch.Tls.Hello.{ServerShare, key_share}

abbrev pub put16 : ℕ → List ℕ → List ℕ
put16 n rest = n / 256 % 256 ∷ n % 256 ∷ rest

abbrev pub put24 : ℕ → List ℕ → List ℕ
put24 n rest = n / 65536 % 256 ∷ n / 256 % 256 ∷ n % 256 ∷ rest

-- An extension: the client's key shares, the server's, or one of another type.
pub data Extension : Type 0 where
  client_shares : List ℕ → Extension
  server_share : ℕ → List ℕ → Extension
  other : ℕ → List ℕ → Extension

abbrev pub extension_length : Extension → ℕ
extension_length (client_shares entries) = 2 + length entries
extension_length (server_share group key) = 4 + length key
extension_length (other type body) = length body

unfoldable pub put_extension : Extension → List ℕ → List ℕ
put_extension (client_shares entries) rest =
    put16 key_share (put16 (2 + length entries) (put16 (length entries) (entries ++ rest)))
put_extension (server_share group key) rest =
    put16 key_share (put16 (4 + length key) (put16 group (put16 (length key) (key ++ rest))))
put_extension (other type body) rest = put16 type (put16 (length body) (body ++ rest))

-- What stands in the extensions of a client, and of a server.
abbrev pub IsClientExtension : Extension → Type 0
IsClientExtension (client_shares entries) = 2 + length entries < 65536
IsClientExtension (server_share group key) = ⊥
IsClientExtension (other type body) = (type < 65536) × (type ≢ key_share) × (length body < 65536)

abbrev pub IsServerExtension : Extension → Type 0
IsServerExtension (client_shares entries) = ⊥
IsServerExtension (server_share group key) = (group < 65536) × (4 + length key < 65536)
IsServerExtension (other type body) = (type < 65536) × (type ≢ key_share) × (length body < 65536)

abbrev pub put_extensions : List Extension → List ℕ → List ℕ
put_extensions [] rest = rest
put_extensions (e ∷ es) rest = put_extension e (put_extensions es rest)

abbrev pub extensions_length : List Extension → ℕ
extensions_length [] = 0
extensions_length (e ∷ es) = 4 + extension_length e + extensions_length es

abbrev pub All : (Extension → Type 0) → List Extension → Type 0
All P [] = Unit
All P (e ∷ es) = P e × All P es

pub length-put_extension :
    (e : Extension) (rest : List ℕ)
    → length (put_extension e rest) ≡ 4 + extension_length e + length rest
unfolding put_extension
length-put_extension (client_shares entries) rest = omega (arith, length-append entries rest)
length-put_extension (server_share group key) rest = omega (arith, length-append key rest)
length-put_extension (other type body) rest = omega (arith, length-append body rest)

pub length-put_extensions :
    (es : List Extension) (rest : List ℕ)
    → length (put_extensions es rest) ≡ extensions_length es + length rest
length-put_extensions [] rest = omega arith
length-put_extensions (e ∷ es) rest =
    omega (arith, length-put_extension e (put_extensions es rest), length-put_extensions es rest)

pub record ClientHello : Type 0 where
  pub version_and_random : List ℕ
  pub session_id : List ℕ
  pub suites : List ℕ
  pub compression : List ℕ
  pub extensions : List Extension

abbrev pub client_length : ClientHello → ℕ
client_length m =
    34
    + (1 + length m.session_id)
    + (2 + length m.suites)
    + (1 + length m.compression)
    + (2 + extensions_length m.extensions)

unfoldable pub put_clienthello : ClientHello → List ℕ → List ℕ
put_clienthello m rest =
    1
    ∷ put24 (client_length m) (
        m.version_and_random
        ++ length m.session_id
          ∷ (m.session_id
              ++ put16 (length m.suites) (
                  m.suites
                  ++ length m.compression
                    ∷ (m.compression
                        ++ put16 (extensions_length m.extensions)
                            (put_extensions m.extensions rest)))))

pub record IsClientHello (m : ClientHello) : Type 0 where
  pub front : length m.version_and_random ≡ 34
  pub session_id_fits : length m.session_id < 256
  pub suites_fit : length m.suites < 65536
  pub compression_fits : length m.compression < 256
  pub extensions_fit : extensions_length m.extensions < 65536
  pub each : All IsClientExtension m.extensions

pub record ServerHello : Type 0 where
  pub version_and_random : List ℕ
  pub session_id : List ℕ
  pub suite : ℕ
  pub compression : ℕ
  pub extensions : List Extension

abbrev pub server_length : ServerHello → ℕ
server_length m = 34 + (1 + length m.session_id) + 2 + 1 + (2 + extensions_length m.extensions)

unfoldable pub put_serverhello : ServerHello → List ℕ → List ℕ
put_serverhello m rest =
    2
    ∷ put24 (server_length m) (
        m.version_and_random
        ++ length m.session_id
          ∷ (m.session_id
              ++ put16 m.suite (
                  m.compression
                  ∷ put16 (extensions_length m.extensions) (put_extensions m.extensions rest))))

pub record IsServerHello (m : ServerHello) : Type 0 where
  pub front : length m.version_and_random ≡ 34
  pub session_id_fits : length m.session_id < 256
  pub extensions_fit : extensions_length m.extensions < 65536
  pub each : All IsServerExtension m.extensions

module _ (sha512 : List ℕ → Option (List ℕ)) where
  -- The key of the first client key shares, of at least one entry's length.
  unfoldable pub lookup_key : List Extension → Result (List ℕ)
  lookup_key [] = reject
  lookup_key (client_shares entries ∷ es) =
      branch (leb 4 (length entries))
        (digest sha512 (clienthello_label ++ put16 (length entries) entries)) (lookup_key es)
  lookup_key (_ ∷ es) = lookup_key es

  -- The first server key share, with the digest of the whole of it.
  unfoldable pub server_key : List Extension → Result ServerShare
  server_key [] = reject
  server_key (server_share group key ∷ es) = do
    reject_if (length key == 0 || ltb 128 (length key))
    report_key ← digest sha512 (serverhello_label ++ put16 group (put16 (length key) key))
    ok (record {
      group_id = group;
      public_key = key;
      public_key_length = length key;
      report_key = report_key;
    })
  server_key (_ ∷ es) = server_key es
