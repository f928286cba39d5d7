-- ===== src/Csv/Report.antt =====
-- When `verify_impl` of agents/linux/csv_attestation.c accepts a report.
use tlslatch.Base.{
  ℕ, zero, suc, ◌+◌, ◌*◌, ◌≤◌, min, List, [], ◌∷◌, ◌++◌, some, none, Bool, true, false, not, length,
  get_or, take, drop, same_bytes, same_bytes_iff, Result, ok, reject, ◌>>=◌, ◌≡◌, refl, sym, ◌∙◌,
  ap, subst, arith, Safe, returns, Safe-reject_if, read-ok, slice-ok, length-take, length-drop,
  length-append, not-false, ltb→le, ltb,
}
use mathlib.Core.List.{reverse}
use tlslatch.Protocol.{ra_report_size}
use tlslatch.Tls.Cursor.{bind-ok, reject_if-pass}
use tlslatch.Csv.Offset
use tlslatch.Csv.{
  xor_word, xor_words, Context, csv_cert_size, verify_certificate, verify_with, verify_impl,
}

-- The bytes from an offset on.
abbrev pub part : List ℕ → ℕ → ℕ → List ℕ
part bytes i n = take n (drop i bytes)

abbrev pub nonce_of : List ℕ → List ℕ
nonce_of bytes = part bytes Offset.anonce 4

abbrev pub pek_of : List ℕ → List ℕ
pek_of bytes = xor_words 521 (part bytes Offset.pek csv_cert_size) (nonce_of bytes)

abbrev pub uid_length : List ℕ → ℕ
uid_length pek = get_or pek Offset.uid 0 + 256 * get_or pek (Offset.uid + 1) 0

abbrev pub public_key : List ℕ → List ℕ
public_key pek = reverse (part pek Offset.x 32) ++ reverse (part pek Offset.y 32)

-- A report of the trusted measurement on the expected data, signed by the trusted key over the report
-- up to its policy. The user data, the certificate and the measurement are masked with the nonce.
pub record IsGenuine (sm2_verify : List ℕ → List ℕ → List ℕ → List ℕ → Bool) (context : Context)
    (bytes expected : List ℕ) : Type 0 where
  pub user_data : xor_words 16 (part bytes Offset.user_data 64) (nonce_of bytes) ≡ expected
  pub uid_fits : uid_length (pek_of bytes) ≤ 254
  pub signed :
      sm2_verify
        (part (pek_of bytes) Offset.curve 4 ++ public_key (pek_of bytes))
        (part (pek_of bytes) (Offset.uid + 2) (uid_length (pek_of bytes)))
        (part bytes 0 180)
        (part bytes Offset.sig1_r 32 ++ part bytes Offset.sig1_s 32)
      ≡ true
  pub trusted_key : public_key (pek_of bytes) ≡ context.trusted_pek
  pub trusted_measurement :
      xor_words 8 (part bytes Offset.measure 32) (nonce_of bytes) ≡ context.trusted_measurement

length-xor_word :
    (word nonce : List ℕ) → length (xor_word word nonce) ≡ min (length word) (length nonce)
unfolding xor_word
length-xor_word [] nonce = omega arith
length-xor_word (b ∷ word) [] = omega arith
length-xor_word (b ∷ word) (n ∷ nonce) = omega (arith, length-xor_word word nonce)

-- Each word is masked, none is lost.
pub length-xor_words :
    (words : ℕ) (input nonce : List ℕ)
    → length nonce ≡ 4
    → length input ≡ 4 * words
    → length (xor_words words input nonce) ≡ 4 * words
unfolding xor_words
length-xor_words zero input nonce n h = omega arith
length-xor_words (suc words) input nonce n h = omega (
  arith,
  length-append (xor_word (take 4 input) nonce) (xor_words words (drop 4 input) nonce),
  length-xor_word (take 4 input) nonce,
  length-take 4 input,
  length-drop 4 input,
  length-xor_words words (drop 4 input) nonce n (omega (arith, length-drop 4 input)),
)

pub length-pek_of :
    (bytes : List ℕ) → length bytes ≡ ra_report_size → length (pek_of bytes) ≡ csv_cert_size
length-pek_of bytes h =
    length-xor_words 521 (part bytes Offset.pek csv_cert_size) (nonce_of bytes)
      (omega (arith, length-take 4 (drop Offset.anonce bytes), length-drop Offset.anonce bytes))
      (omega
        (arith, length-take csv_cert_size (drop Offset.pek bytes), length-drop Offset.pek bytes))

passes : {xs ys : List ℕ} → xs ≡ ys → not (same_bytes xs ys) ≡ false
passes {xs} {ys} h = ap not ((same_bytes_iff xs ys).1 h)

le-not_ltb : (a b : ℕ) → b ≤ a → ltb a b ≡ false
le-not_ltb a b h = ground arith

-- Reads inside the buffer, with their values.
module _ {A B : Type 0} {Q : B → Type 0} where
  pub Safe-value :
      (m : Result A) (f : A → Result B) {a : A} → m ≡ ok a → Safe Q (f a) → Safe Q (m >>= f)
  unfolding ◌>>=◌
  Safe-value m f e s = rw e s

module _ (context : Context) (bytes expected : List ℕ) (size : length bytes ≡ ra_report_size) where
  verify_with-Safe :
      (sm2_verify : List ℕ → List ℕ → List ℕ → List ℕ → Bool)
      → Safe
          (λ _. IsGenuine sm2_verify context bytes expected)
          (verify_with sm2_verify context bytes expected)
  unfolding verify_with verify_certificate
  verify_with-Safe sm2_verify =
      let pek = pek_of bytes in
      let cert = length-pek_of bytes size in
      Safe-value _ _ (slice-ok bytes Offset.anonce 4 (omega arith)) (
        Safe-value _ _ (slice-ok bytes Offset.user_data 64 (omega arith)) (
          Safe-reject_if _ _ λ data_ok.
            Safe-value _ _ (slice-ok bytes Offset.pek csv_cert_size (omega arith)) (
              Safe-value _ _ (slice-ok pek Offset.curve 4 (omega arith)) (
                Safe-value _ _ (slice-ok pek Offset.x 32 (omega arith)) (
                  Safe-value _ _ (slice-ok pek Offset.y 32 (omega arith)) (
                    Safe-value _ _ (read-ok pek Offset.uid (omega arith)) (
                      Safe-value _ _ (read-ok pek (Offset.uid + 1) (omega arith)) (
                        Safe-reject_if _ _ λ uid_ok.
                          let fits : uid_length pek ≤ 254 = ltb→le 254 (uid_length pek) uid_ok in
                          Safe-value _ _ (slice-ok bytes Offset.sig1_r 32 (omega arith)) (
                            Safe-value _ _ (slice-ok bytes Offset.sig1_s 32 (omega arith)) (
                              Safe-value _ _
                                (slice-ok pek (Offset.uid + 2) (uid_length pek) (omega arith))
                                (Safe-value _ _ (slice-ok bytes 0 180 (omega arith)) (
                                  Safe-reject_if _ _ λ signature_ok. Safe-reject_if _ _ λ key_ok.
                                    Safe-value _ _ (slice-ok bytes Offset.measure 32 (omega arith))
                                      (Safe-reject_if _ _ λ measurement_ok. returns tt (record {
                                        user_data = (same_bytes_iff _ _).0 (not-false _ data_ok);
                                        uid_fits = fits;
                                        signed = not-false _ signature_ok;
                                        trusted_key = (same_bytes_iff _ _).0 (not-false _ key_ok);
                                        trusted_measurement =
                                            (same_bytes_iff _ _).0 (not-false _ measurement_ok);
                                      }))))))))))))))

  verify_impl-with :
      (sm2_verify : List ℕ → List ℕ → List ℕ → List ℕ → Bool)
      → context.sm2_verify ≡ some sm2_verify
      → verify_impl context bytes expected ≡ verify_with sm2_verify context bytes expected
  unfolding verify_impl
  verify_impl-with sm2_verify e =
      ap
        (λ o. elim o as (λ _. Result (Unit {0})) [
          | none ↦ reject
          | some verify ↦ verify_with verify context bytes expected
        ])
        e

  -- Where the library has the SM2 check, on a report of its size the verification reads nothing outside
  -- the report or its certificate, and it accepts only a genuine report.
  pub verify_impl-Safe :
      (sm2_verify : List ℕ → List ℕ → List ℕ → List ℕ → Bool)
      → context.sm2_verify ≡ some sm2_verify
      → Safe (λ _. IsGenuine sm2_verify context bytes expected) (verify_impl context bytes expected)
  verify_impl-Safe sm2_verify e =
      subst (λ r. Safe (λ _. IsGenuine sm2_verify context bytes expected) r)
        (sym (verify_impl-with sm2_verify e)) (verify_with-Safe sm2_verify)

  -- Where the library has the SM2 check, the verification accepts every genuine report of its size.
  pub verify_impl-accepts :
      (sm2_verify : List ℕ → List ℕ → List ℕ → List ℕ → Bool)
      → context.sm2_verify ≡ some sm2_verify
      → IsGenuine sm2_verify context bytes expected
      → verify_impl context bytes expected ≡ ok tt
  unfolding verify_with verify_certificate
  verify_impl-accepts sm2_verify e g =
      let pek = pek_of bytes in
      let cert = length-pek_of bytes size in
      let fits = g.uid_fits in
      verify_impl-with sm2_verify e
      ∙ (bind-ok _ _ (slice-ok bytes Offset.anonce 4 (omega arith)) (
          bind-ok _ _ (slice-ok bytes Offset.user_data 64 (omega arith)) (
            reject_if-pass _ _ (passes (g.user_data)) (
              bind-ok _ _ (slice-ok bytes Offset.pek csv_cert_size (omega arith)) (
                bind-ok _ _ (slice-ok pek Offset.curve 4 (omega arith)) (
                  bind-ok _ _ (slice-ok pek Offset.x 32 (omega arith)) (
                    bind-ok _ _ (slice-ok pek Offset.y 32 (omega arith)) (
                      bind-ok _ _ (read-ok pek Offset.uid (omega arith)) (
                        bind-ok _ _ (read-ok pek (Offset.uid + 1) (omega arith)) (
                          reject_if-pass _ _ (le-not_ltb 254 (uid_length pek) fits) (
                            bind-ok _ _ (slice-ok bytes Offset.sig1_r 32 (omega arith)) (
                              bind-ok _ _ (slice-ok bytes Offset.sig1_s 32 (omega arith)) (
                                bind-ok _ _
                                  (slice-ok pek (Offset.uid + 2) (uid_length pek) (omega arith))
                                  (bind-ok _ _ (slice-ok bytes 0 180 (omega arith)) (
                                    reject_if-pass _ _ (ap not g.signed) (
                                      reject_if-pass _ _ (passes g.trusted_key) (
                                        bind-ok _ _ (slice-ok bytes Offset.measure 32 (omega arith))
                                          (reject_if-pass _ _ (passes g.trusted_measurement)
                                            refl))))))))))))))))))
