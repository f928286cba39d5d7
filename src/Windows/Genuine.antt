-- ===== src/Windows/Genuine.antt =====
-- agents/windows/tcpra_agent_c.c: when `verify_report` accepts a report.
use mathlib.Core.List.{reverse}
use tlslatch.Base.{
  ℕ, ◌+◌, ◌≤◌, List, ◌∷◌, Option, some, none, Bool, true, false, length, same_bytes_iff, ok, ◌>>=◌,
  ◌≡◌, refl, arith, Safe, returns, rejects, Safe->>=, Safe-implies, Safe-reject_if, read-ok,
  slice-ok, not-false, ltb→le, ◌||◌,
}
use tlslatch.Protocol.{ra_report_size}
use tlslatch.Packet.Safety.{Safe-read_word}
use tlslatch.Csv.Offset
use tlslatch.Csv.{xor_words, csv_cert_size, hex_decode}
use tlslatch.Csv.Report.{part, nonce_of, pek_of, uid_length, public_key, length-pek_of, Safe-value}
use tlslatch.Windows.Report.{Trust, required_bytes, sm2_verify_signature, verify_pek, verify_report}

-- A report of the trusted measurement on the expected data, signed by the trusted key over the report
-- up to its policy.
pub record IsTrusted (sm2 : List ℕ → List ℕ → List ℕ → List ℕ → List ℕ → Bool)
    (pek measurement bytes expected : List ℕ) : Type 0 where
  pub user_data : xor_words 16 (part bytes Offset.user_data 64) (nonce_of bytes) ≡ expected
  pub uid_fits : uid_length (pek_of bytes) ≤ 254
  pub signed :
      sm2
        (4 ∷ public_key (pek_of bytes))
        (part (pek_of bytes) (Offset.uid + 2) (uid_length (pek_of bytes)))
        (part bytes 0 180)
        (reverse (part bytes Offset.sig1_r 32))
        (reverse (part bytes Offset.sig1_s 32))
      ≡ true
  pub trusted_key : public_key (pek_of bytes) ≡ pek
  pub trusted_measurement :
      xor_words 8 (part bytes Offset.measure 32) (nonce_of bytes) ≡ measurement

-- The settings decode to a key and a measurement, and the report is genuine for them.
pub data IsGenuine (sm2 : List ℕ → List ℕ → List ℕ → List ℕ → List ℕ → Bool) (trust : Trust)
    (bytes expected : List ℕ) : Type 0 where
  genuine :
      (pek measurement : List ℕ)
      → hex_decode trust.pek_text 64 ≡ some pek
      → hex_decode trust.measurement_text 32 ≡ some measurement
      → IsTrusted sm2 pek measurement bytes expected
      → IsGenuine sm2 trust bytes expected

pub first_false : (a b : Bool) → (a || b) ≡ false → a ≡ false
first_false true b e = cc
first_false false b e = refl

required_bytes-Safe : (o : Option (List ℕ)) → Safe (λ bytes. o ≡ some bytes) (required_bytes o)
required_bytes-Safe none = rejects
required_bytes-Safe (some bytes) = returns bytes refl

module _ (sm2 : List ℕ → List ℕ → List ℕ → List ℕ → List ℕ → Bool) (bytes : List ℕ)
    (size : length bytes ≡ ra_report_size) where
  sm2_verify_signature-ok :
      (sec1 uid : List ℕ)
      → sm2_verify_signature sm2 bytes sec1 uid
        ≡ ok (
            sm2 sec1 uid
              (part bytes 0 180)
              (reverse (part bytes Offset.sig1_r 32))
              (reverse (part bytes Offset.sig1_s 32)))
  unfolding sm2_verify_signature ◌>>=◌
  sm2_verify_signature-ok sec1 uid = rw (
    slice-ok bytes Offset.sig1_r 32 (omega arith),
    slice-ok bytes Offset.sig1_s 32 (omega arith),
    slice-ok bytes 0 180 (omega arith),
  )

  verify_pek-Safe :
      (pek measurement expected : List ℕ)
      → xor_words 16 (part bytes Offset.user_data 64) (nonce_of bytes) ≡ expected
      → Safe
          (λ _. IsTrusted sm2 pek measurement bytes expected)
          (verify_pek sm2 pek measurement bytes (nonce_of bytes) (pek_of bytes))
  unfolding verify_pek
  verify_pek-Safe pek measurement expected data_ok =
      let cert = pek_of bytes in
      let long : length cert ≡ csv_cert_size = length-pek_of bytes size in
      Safe-read_word _ _ _ (omega arith) λ curve. Safe-reject_if _ _ λ _.
        Safe-value _ _ (slice-ok cert Offset.x 32 (omega arith)) (
          Safe-value _ _ (slice-ok cert Offset.y 32 (omega arith)) (
            Safe-value _ _ (read-ok cert Offset.uid (omega arith)) (
              Safe-value _ _ (read-ok cert (Offset.uid + 1) (omega arith)) (
                Safe-reject_if _ _ λ uid_ok.
                  let fits : uid_length cert ≤ 254 = ltb→le 254 _ (first_false _ _ uid_ok) in
                  Safe-value _ _ (slice-ok cert (Offset.uid + 2) (uid_length cert) (omega arith)) (
                    Safe-value _ _ (sm2_verify_signature-ok _ _) (
                      Safe-reject_if _ _ λ signature_ok. Safe-reject_if _ _ λ key_ok.
                        Safe-value _ _ (slice-ok bytes Offset.measure 32 (omega arith)) (
                          Safe-reject_if _ _ λ measurement_ok. returns tt (record {
                            user_data = data_ok;
                            uid_fits = fits;
                            signed = not-false _ signature_ok;
                            trusted_key = (same_bytes_iff _ _).0 (not-false _ key_ok);
                            trusted_measurement =
                                (same_bytes_iff _ _).0 (not-false _ measurement_ok);
                          }))))))))

  pub verify_report-Safe :
      (trust : Trust) (expected : List ℕ)
      → Safe (λ _. IsGenuine sm2 trust bytes expected) (verify_report sm2 trust bytes expected)
  unfolding verify_report
  verify_report-Safe trust expected =
      Safe->>= _ _ (required_bytes-Safe (hex_decode trust.pek_text 64)) λ pek p.
        Safe->>= _ _ (required_bytes-Safe (hex_decode trust.measurement_text 32)) λ measurement m.
          Safe-value _ _ (slice-ok bytes Offset.anonce 4 (omega arith)) (
            Safe-value _ _ (slice-ok bytes Offset.user_data 64 (omega arith)) (
              Safe-reject_if _ _ λ data_ok.
                Safe-value _ _ (slice-ok bytes Offset.pek csv_cert_size (omega arith)) (
                  Safe-implies
                    (verify_pek-Safe pek measurement expected
                      ((same_bytes_iff _ _).0 (not-false _ data_ok)))
                    λ _ t. genuine pek measurement p m t)))
