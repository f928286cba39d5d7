-- ===== src/Windows/Report.antt =====
-- agents/windows/tcpra_agent_c.c: the check of a report. The SM2 check of OpenSSL is the parameter
-- `sm2`: it is given the public key as it is encoded, the user's name, the message, and the two numbers
-- of the signature, from the highest byte on. The trusted values are the decoded settings.
use mathlib.Core.List.{reverse}
use tlslatch.Base.{
  ℕ, ◌+◌, ◌*◌, List, ◌∷◌, ◌++◌, Option, some, none, Bool, not, ltb, ◌/=◌, ◌||◌, same_bytes, length,
  Result, ok, reject, reject_if, read, slice, ◌>>=◌, ◌>>◌,
}
use tlslatch.Packet.{read_word}
use tlslatch.Csv.Offset
use tlslatch.Csv.{xor_words, csv_cert_size, hex_decode}

-- `CSV_RA_TRUSTED_PEK` and `CSV_RA_TRUSTED_MEASURE`, as `getenv` gives them
pub record Trust : Type 0 where
  pub pek_text : Option (List ℕ)
  pub measurement_text : Option (List ℕ)

abbrev pub required_bytes : Option (List ℕ) → Result (List ℕ)
required_bytes none = reject
required_bytes (some bytes) = ok bytes

module _ (sm2 : List ℕ → List ℕ → List ℕ → List ℕ → List ℕ → Bool) where
  -- The signature is that of the report up to its policy, by the key that `sec1` encodes.
  unfoldable pub sm2_verify_signature : List ℕ → List ℕ → List ℕ → Result Bool
  sm2_verify_signature report sec1 uid = do
    r ← slice report Offset.sig1_r 32
    s ← slice report Offset.sig1_s 32
    signed ← slice report 0 180
    ok (sm2 sec1 uid signed (reverse r) (reverse s))

  -- The part behind the test of the user data; `pek` is the certificate, unmasked.
  unfoldable pub verify_pek : List ℕ → List ℕ → List ℕ → List ℕ → List ℕ → Result (Unit {0})
  verify_pek trusted_pek trusted_measurement report nonce pek = do
    curve ← read_word pek Offset.curve
    reject_if (curve /= 3)
    x ← slice pek Offset.x 32
    y ← slice pek Offset.y 32
    uid_low ← read pek Offset.uid
    uid_high ← read pek (Offset.uid + 1)
    let uid_len = uid_low + 256 * uid_high
    reject_if (ltb 254 uid_len || ltb (length pek) (Offset.uid + 2 + uid_len))
    uid ← slice pek (Offset.uid + 2) uid_len
    let actual = reverse x ++ reverse y
    signed ← sm2_verify_signature report (4 ∷ actual) uid
    reject_if (not signed)
    reject_if (not (same_bytes actual trusted_pek))
    masked ← slice report Offset.measure 32
    reject_if (not (same_bytes (xor_words 8 masked nonce) trusted_measurement))
    ok tt

  -- `return true` is `ok tt`; the reason of a refusal is left out. `nonce` is the bytes of the number.
  unfoldable pub verify_report : Trust → List ℕ → List ℕ → Result (Unit {0})
  verify_report trust report expected = do
    trusted_pek ← required_bytes (hex_decode trust.pek_text 64)
    trusted_measurement ← required_bytes (hex_decode trust.measurement_text 32)
    nonce ← slice report Offset.anonce 4
    masked ← slice report Offset.user_data 64
    reject_if (not (same_bytes (xor_words 16 masked nonce) expected))
    pek ← slice report Offset.pek csv_cert_size
    verify_pek trusted_pek trusted_measurement report nonce (xor_words 521 pek nonce)
