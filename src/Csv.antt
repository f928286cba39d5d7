-- ===== src/Csv.antt =====
-- agents/linux/csv_attestation.c: the trust configuration, and the check of a CSV attestation report.
-- The calls of the CSV library, `gmssl_sm2_verify` and `vmmcall_get_attestation_report`, are fields
-- of the context.
pub mod Offset
pub mod Report
pub mod Hex
pub mod Tests
use Prim.Native.Nat.{bit_xor}
use tlslatch.Base.{
  ℕ, zero, suc, ◌+◌, ◌*◌, ◌/◌, ◌%◌, ◌-◌, List, [], ◌∷◌, ◌++◌, Option, some, none, Bool, true, false,
  not, ◌&&◌, ◌||◌, ltb, leb, ◌==◌, if◌then◌else◌, length, take, drop, same_bytes, Result, ok,
  reject, ◌>>=◌, ◌>>◌, reject_if, slice, read,
}
use mathlib.Core.List.{reverse}
use tlslatch.Csv.Offset
use tlslatch.Protocol.{ra_key_size, ra_report_size}

-- The value of a hexadecimal digit, as `sscanf` with `%2x` reads it.
unfoldable pub hex_value : ℕ → Option ℕ
hex_value c =
    if leb 0x30 c && leb c 0x39
    then some (c - 0x30)
    else if leb 0x61 c && leb c 0x66
    then some (c - 0x57)
    else if leb 0x41 c && leb c 0x46
    then some (c - 0x37)
    else none

abbrev pub next_byte : Option ℕ → Option ℕ → Option (List ℕ) → Option (List ℕ)
next_byte (some high) (some low) (some rest) = some ((16 * high + low) ∷ rest)
next_byte _ _ _ = none

-- The text of `length` bytes; a null pointer, as `getenv` gives it, is `none`. The tests of `strlen`
-- and `strspn` fail where a digit is missing, or another character stands.
unfoldable pub hex_bytes : ℕ → List ℕ → Option (List ℕ)
hex_bytes zero [] = some []
hex_bytes zero (c ∷ text) = none
hex_bytes (suc n) (high ∷ low ∷ text) =
    next_byte (hex_value high) (hex_value low) (hex_bytes n text)
hex_bytes (suc n) _ = none

unfoldable pub hex_decode : Option (List ℕ) → ℕ → Option (List ℕ)
hex_decode none length = none
hex_decode (some text) length = hex_bytes length text

-- `word ^= nonce`: a word is here its bytes as they lie in memory, and `^` acts on each of them.
unfoldable pub xor_word : List ℕ → List ℕ → List ℕ
xor_word (b ∷ word) (n ∷ nonce) = bit_xor b n ∷ xor_word word nonce
xor_word _ _ = []

-- The loop over `length / sizeof(uint32_t)` words.
unfoldable pub xor_words : ℕ → List ℕ → List ℕ → List ℕ
xor_words zero input nonce = []
xor_words (suc words) input nonce =
    xor_word (take 4 input) nonce ++ xor_words words (drop 4 input) nonce

-- `struct tcpra_csv_context`. `sm2_verify` is given the point, the user's name, the message and the
-- signature; `get_report` gives the report on some user data, if its status is 0.
pub record Context : Type 0 where
  pub get_report : Option (List ℕ → Option (List ℕ))
  pub sm2_verify : Option (List ℕ → List ℕ → List ℕ → List ℕ → Bool)
  pub trusted_pek : List ℕ
  pub trusted_measurement : List ℕ
  pub reporter : Bool

abbrev pub csv_cert_size : ℕ
csv_cert_size = 2084

-- The part of `verify_impl` behind the test of the user data; `pek` is the certificate, unmasked.
unfoldable pub verify_certificate :
    (List ℕ → List ℕ → List ℕ → List ℕ → Bool)
    → Context
    → List ℕ
    → List ℕ
    → List ℕ
    → Result (Unit {0})
verify_certificate sm2_verify context bytes nonce pek = slice pek Offset.curve 4 >>= λ curve.
    slice pek Offset.x 32 >>= λ x. slice pek Offset.y 32 >>= λ y. read pek Offset.uid >>= λ uid_low.
    read pek (Offset.uid + 1) >>= λ uid_high.
    reject_if (ltb 254 (uid_low + 256 * uid_high))
    >> (slice bytes Offset.sig1_r 32 >>= λ r. slice bytes Offset.sig1_s 32 >>= λ s.
        slice pek (Offset.uid + 2) (uid_low + 256 * uid_high) >>= λ uid.
        slice bytes 0 180 >>= λ signed.
        let actual_pek = reverse x ++ reverse y in
        reject_if (not (sm2_verify (curve ++ actual_pek) uid signed (r ++ s)))
        >> (reject_if (not (same_bytes actual_pek context.trusted_pek))
            >> (slice bytes Offset.measure 32 >>= λ masked.
                reject_if (not (same_bytes (xor_words 8 masked nonce) context.trusted_measurement))
                >> ok tt)))

-- `return 1` is `ok tt`.
unfoldable pub verify_with :
    (List ℕ → List ℕ → List ℕ → List ℕ → Bool) → Context → List ℕ → List ℕ → Result (Unit {0})
verify_with sm2_verify context bytes expected = slice bytes Offset.anonce 4 >>= λ nonce.
    slice bytes Offset.user_data 64 >>= λ masked.
    reject_if (not (same_bytes (xor_words 16 masked nonce) expected))
    >> (slice bytes Offset.pek csv_cert_size >>= λ pek.
        verify_certificate sm2_verify context bytes nonce (xor_words 521 pek nonce))

unfoldable pub verify_impl : Context → List ℕ → List ℕ → Result (Unit {0})
verify_impl context bytes expected = elim context.sm2_verify [
  | none ↦ reject
  | some sm2_verify ↦ verify_with sm2_verify context bytes expected
]

abbrev pub tcpra_csv_verify_report : Context → List ℕ → List ℕ → Result (Unit {0})
tcpra_csv_verify_report context report expected = verify_impl context report expected

abbrev verify_generated : Context → List ℕ → Option (List ℕ) → Result (List ℕ)
verify_generated context key none = reject
verify_generated context key (some report) =
    tcpra_csv_verify_report context report key >>= λ _. ok report

unfoldable pub tcpra_csv_generate_report : Context → List ℕ → Result (List ℕ)
tcpra_csv_generate_report context key =
    if not context.reporter then reject else elim context.get_report [
      | none ↦ reject
      | some get_report ↦ verify_generated context key (get_report key)
    ]
