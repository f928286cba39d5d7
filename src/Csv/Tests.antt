-- ===== src/Csv/Tests.antt =====
-- Examples for the theorems on agents/linux/csv_attestation.c: a report of zero bytes.
use tlslatch.Base.{
  ℕ, List, some, none, Bool, true, ◌≡◌, refl, arith, replicate, length, length-replicate, ok, Safe,
}
use tlslatch.Protocol.{ra_report_size}
use tlslatch.Csv.{Context, xor_word, xor_words, verify_impl}
use tlslatch.Csv.Report.{IsGenuine, verify_impl-Safe, verify_impl-accepts}

abbrev any_signature : List ℕ → List ℕ → List ℕ → List ℕ → Bool
any_signature point uid message signature = true

abbrev context : Context
context = record {
  get_report = none;
  sm2_verify = some any_signature;
  trusted_pek = replicate 64 0;
  trusted_measurement = replicate 32 0;
  reporter = true;
}

abbrev zeros : List ℕ
zeros = replicate ra_report_size 0

zeros_size : length zeros ≡ ra_report_size
zeros_size = length-replicate {A = ℕ} ra_report_size 0

zeros-IsGenuine : IsGenuine any_signature context zeros (replicate 64 0)
unfolding xor_words xor_word
zeros-IsGenuine = record {
  user_data = refl;
  uid_fits = omega arith;
  signed = refl;
  trusted_key = refl;
  trusted_measurement = refl;
}

verify_impl-Safe_example :
    Safe
      (λ _. IsGenuine any_signature context zeros (replicate 64 0))
      (verify_impl context zeros (replicate 64 0))
verify_impl-Safe_example =
    verify_impl-Safe context zeros (replicate 64 0) zeros_size any_signature refl

verify_impl-accepts_example : verify_impl context zeros (replicate 64 0) ≡ ok tt
verify_impl-accepts_example =
    verify_impl-accepts context zeros (replicate 64 0) zeros_size any_signature refl zeros-IsGenuine
