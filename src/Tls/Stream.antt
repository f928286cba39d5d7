-- ===== src/Tls/Stream.antt =====
-- The record layer that agents/linux/tls_parse.c walks, as RFC 8446 lays it out, and what the walk is
-- to find in it.
use tlslatch.Base.{
  ℕ, ◌+◌, ◌<◌, ◌≡◌, ◌≢◌, List, [], ◌∷◌, ◌++◌, Option, some, none, length, ltb, ◌==◌, ◌||◌, ◌&&◌,
  Bool, false, Result, ok, reject, ◌>>=◌, branch, arith, length-append,
}
use tlslatch.Tls.Format.{put16, put24}
use tlslatch.Tls.Records.{Found, extract_wanted, return_or}

pub record Message : Type 0 where
  pub kind : ℕ
  pub body : List ℕ

unfoldable pub put_message : Message → List ℕ → List ℕ
put_message m rest = m.kind ∷ put24 (length m.body) (m.body ++ rest)

abbrev pub put_messages : List Message → List ℕ → List ℕ
put_messages [] rest = rest
put_messages (m ∷ ms) rest = put_message m (put_messages ms rest)

abbrev pub messages_length : List Message → ℕ
messages_length [] = 0
messages_length (m ∷ ms) = 4 + length m.body + messages_length ms

-- A record of handshake messages, or one of another content type, with the bytes of its version.
pub data TlsRecord : Type 0 where
  handshake : ℕ → ℕ → List Message → TlsRecord
  opaque : ℕ → ℕ → ℕ → List ℕ → TlsRecord

abbrev pub content_type_of : TlsRecord → ℕ
content_type_of (handshake major minor ms) = 22
content_type_of (opaque type major minor content) = type

abbrev pub content_length : TlsRecord → ℕ
content_length (handshake major minor ms) = messages_length ms
content_length (opaque type major minor content) = length content

unfoldable pub put_record : TlsRecord → List ℕ → List ℕ
put_record (handshake major minor ms) rest =
    22 ∷ major ∷ minor ∷ put16 (messages_length ms) (put_messages ms rest)
put_record (opaque type major minor content) rest =
    type ∷ major ∷ minor ∷ put16 (length content) (content ++ rest)

abbrev pub put_records : List TlsRecord → List ℕ → List ℕ
put_records [] rest = rest
put_records (r ∷ rs) rest = put_record r (put_records rs rest)

abbrev pub AllFit : List Message → Type 0
AllFit [] = Unit
AllFit (m ∷ ms) = (length m.body < 16777216) × AllFit ms

abbrev pub IsRecord : TlsRecord → Type 0
IsRecord (handshake major minor ms) = AllFit ms × (messages_length ms < 65536)
IsRecord (opaque type major minor content) = (type ≢ 22) × (length content < 65536)

abbrev pub AllRecords : List TlsRecord → Type 0
AllRecords [] = Unit
AllRecords (r ∷ rs) = IsRecord r × AllRecords rs

pub length-put_messages :
    (ms : List Message) (rest : List ℕ)
    → length (put_messages ms rest) ≡ messages_length ms + length rest
unfolding put_message
length-put_messages [] rest = omega arith
length-put_messages (m ∷ ms) rest =
    omega (arith, length-append m.body (put_messages ms rest), length-put_messages ms rest)

-- Some record holds encrypted application data.
unfoldable pub any_encrypted : List TlsRecord → Bool
any_encrypted [] = false
any_encrypted (r ∷ rs) = (content_type_of r == 23 && ltb 0 (content_length r)) || any_encrypted rs

module _ (sha512 : List ℕ → Option (List ℕ)) (wanted : ℕ) where
  -- The first message of the wanted kind, without what follows it.
  unfoldable pub first_in_messages : List Message → Result (Option Found)
  first_in_messages [] = ok none
  first_in_messages (m ∷ ms) =
      branch (m.kind == wanted)
        (do found ← extract_wanted sha512 wanted (put_message m []); ok (some found))
        (first_in_messages ms)

  unfoldable pub first_in_records : List TlsRecord → Result Found
  first_in_records [] = reject
  first_in_records (handshake major minor ms ∷ rs) = do
    found ← first_in_messages ms
    return_or found (first_in_records rs)
  first_in_records (opaque type major minor content ∷ rs) = first_in_records rs
