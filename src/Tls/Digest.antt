-- ===== src/Tls/Digest.antt =====
-- The digests of agents/linux/tls_parse.c. SHA-512 is OpenSSL's: the parameter `sha512` maps the
-- concatenation of the strings given to `EVP_DigestUpdate` to the digest, or to `none` where a call
-- of EVP fails.
use Prim.Native.Char.{code}
use Prim.Native.String.{String}
use tlslatch.Base.{
  ℕ, ◌+◌, ◌*◌, ◌/◌, ◌%◌, List, [], ◌∷◌, ◌++◌, Option, none, some, length, ltb, ◌==◌, ◌/=◌, ◌||◌,
  read, Result, ok, reject, ◌>>=◌, ◌>>◌, reject_if,
}
use tlslatch.Protocol.{ra_key_size}

abbrev pub codes : String → List ℕ
codes String.[] = []
codes (String.◌∷◌ c s) = code c ∷ codes s

abbrev pub clienthello_label : List ℕ
clienthello_label = codes "tcp-level-ra/clienthello-key/v1"

abbrev pub serverhello_label : List ℕ
serverhello_label = codes "tcp-level-ra/serverhello-key/v1"

abbrev pub client_early_label : List ℕ
client_early_label = codes "tcp-level-ra/mutual-client-early/v2"

abbrev pub server_early_label : List ℕ
server_early_label = codes "tcp-level-ra/mutual-server-early/v2"

abbrev pub max_public_key : ℕ
max_public_key = 128

-- `(hi << 8) | lo` for two bytes
abbrev pub be16 : ℕ → ℕ → ℕ
be16 hi lo = hi * 256 + lo

-- `(b[1] << 16) | (b[2] << 8) | b[3]` for three bytes
abbrev pub be24 : ℕ → ℕ → ℕ → ℕ
be24 high mid low = high * 65536 + mid * 256 + low

-- `htons` and a `memcpy` of the result: the two bytes of a `uint16_t` in network order
abbrev pub u16_bytes : ℕ → List ℕ
u16_bytes v = v / 256 % 256 ∷ v % 256 ∷ []

unfoldable pub read16 : List ℕ → ℕ → Result ℕ
read16 buffer i = do hi ← read buffer i; lo ← read buffer (i + 1); ok (be16 hi lo)

unfoldable pub read24 : List ℕ → ℕ → Result ℕ
read24 buffer i = do
  high ← read buffer i
  mid ← read buffer (i + 1)
  low ← read buffer (i + 2)
  ok (be24 high mid low)

-- Every digest of the file ends by the test of the output length.
unfoldable pub key_sized : Option (List ℕ) → Result (List ℕ)
key_sized none = reject
key_sized (some out) = reject_if (length out /= ra_key_size) >> ok out

module _ (sha512 : List ℕ → Option (List ℕ)) where
  unfoldable pub digest : List ℕ → Result (List ℕ)
  digest input = key_sized (sha512 input)

  unfoldable pub digest_share : List ℕ → List ℕ → Result (List ℕ)
  digest_share label share = digest (label ++ share)

  unfoldable pub client_lookup_from_key_share : List ℕ → Result (List ℕ)
  client_lookup_from_key_share extension = do
    reject_if (ltb (length extension) 6)
    shares ← read16 extension 0
    reject_if ((shares + 2) /= length extension || ltb shares 4)
    digest_share clienthello_label extension

  -- The public key is `public_key_length` bytes.
  unfoldable pub report_key_from_public : ℕ → List ℕ → Result (List ℕ)
  report_key_from_public group_id public_key = do
    reject_if (length public_key == 0 || ltb max_public_key (length public_key))
    let extension = u16_bytes group_id ++ u16_bytes (length public_key) ++ public_key
    digest_share serverhello_label extension

  -- `network_client_nonce` is the eight bytes of the nonce in memory.
  unfoldable pub early_client_report_key : List ℕ → List ℕ → Result (List ℕ)
  early_client_report_key lookup_key network_client_nonce =
      digest (client_early_label ++ lookup_key ++ network_client_nonce)

  unfoldable pub early_server_report_key : List ℕ → List ℕ → Result (List ℕ)
  early_server_report_key server_hello_key client_report_key =
      digest (server_early_label ++ server_hello_key ++ client_report_key)
