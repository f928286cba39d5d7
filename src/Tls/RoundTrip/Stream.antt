-- ===== src/Tls/RoundTrip/Stream.antt =====
-- `find_handshake` and `tcpra_tls_contains_encrypted_record` on whole records.
use tlslatch.Base.{
  ℕ, zero, suc, ◌+◌, ◌<◌, ◌≡◌, refl, sym, ◌∙◌, List, [], ◌∷◌, ◌++◌, Option, some, length, ltb, ◌==◌,
  ◌&&◌, arith, Result, ok, Bool-cases, inl, inr, length-append, ap, append-nil, ◌>>=◌, read,
}
use tlslatch.Tls.Records.{
  Found, extract_wanted, return_or, find_in_record, find_records, find_handshake, encrypted_records,
  tls_contains_encrypted_record,
}
use tlslatch.Tls.Cursor.{
  At, At-length, At-skip, At-slice, At-u8, At-u16, At-u24, At-past8, At-past16, At-past24, bind-ok,
  reject_if-pass, reject_if-stop, branch-true, branch-false,
}
use mathlib.Core.Path.{ap₂}
use tlslatch.Tls.Format.{put24}
use tlslatch.Tls.Digest.{read16}
use tlslatch.Tls.Stream.{
  Message, put_message, put_messages, messages_length, TlsRecord, handshake, opaque, put_record,
  put_records, AllFit, IsRecord, AllRecords, content_length, content_type_of, length-put_messages,
  any_encrypted, first_in_messages, first_in_records,
}

module _ (buffer : List ℕ) where
  past :
      (ms : List Message) (rest : List ℕ) (i : ℕ)
      → At buffer i (put_messages ms rest)
      → At buffer (i + messages_length ms) rest
  unfolding put_message
  past [] rest i h = let e : i + 0 ≡ i = omega arith in rw e h
  past (m ∷ ms) rest i h =
      let e : i + (4 + length m.body + messages_length ms)
          ≡ i + 4 + length m.body + messages_length ms =
        omega arith in
      rw e (
        past ms rest (i + 4 + length m.body) (
          At-skip m.body _ _
            (At-past24 (length m.body) (i + 4) (At-past8 m.kind (i + 1) h refl) (omega arith))
            refl))

  module _ (sha512 : List ℕ → Option (List ℕ)) (wanted : ℕ) where
    messages-first :
        (ms : List Message) (rest : List ℕ) (fuel position end : ℕ)
        → AllFit ms
        → At buffer position (put_messages ms rest)
        → end ≡ position + messages_length ms
        → end < position + fuel
        → find_in_record sha512 fuel buffer wanted position end ≡ first_in_messages sha512 wanted ms
    unfolding find_in_record first_in_messages put_message
    messages-first ms rest zero position end a h e m = absurd (omega arith)
    messages-first [] rest (suc fuel) position end a h e m = branch-true _ _ _ (ground arith) refl
    messages-first (x ∷ ms) rest (suc fuel) position end a h e m =
        let h1 = At-past8 x.kind (position + 1) h refl in
        let h4 = At-past24 (length x.body) (position + 4) h1 (omega arith) in
        branch-false _ _ _ (ground arith) (
          bind-ok _ _ (At-u24 (length x.body) (position + 1) h1 refl a.0) (
            branch-false _ _ _ (ground arith) (
              bind-ok _ _ (At-u8 x.kind position h refl) (elim (Bool-cases (x.kind == wanted)) [
                | inl same ↦ branch-true _ _ _ same (
                    bind-ok _ _
                      (At-slice (x.kind ∷ put24 (length x.body) x.body) _ (4 + length x.body) h
                        (omega arith))
                      (sym (
                        branch-true _ _ _ same (
                          ap
                            (λ (t : List ℕ). do
                              found ←
                                  extract_wanted sha512 wanted (x.kind ∷ put24 (length x.body) t)
                              ok (some found))
                            (append-nil x.body)))))
                | inr differs ↦ branch-false _ _ _ differs (
                    messages-first ms rest fuel (position + 4 + length x.body) end a.1
                      (At-skip x.body _ _ h4 refl) (omega arith) (omega arith)
                    ∙ sym (branch-false _ _ _ differs refl))
              ]))))

    records-first :
        (rs : List TlsRecord) (tail : List ℕ) (fuel offset : ℕ)
        → AllRecords rs
        → length tail < 5
        → At buffer offset (put_records rs tail)
        → length buffer < offset + fuel
        → find_records sha512 fuel buffer wanted offset ≡ first_in_records sha512 wanted rs
    unfolding find_records first_in_records put_record return_or
    records-first rs tail zero offset a t h m =
        absurd (omega (arith, At-length (put_records rs tail) h))
    records-first [] tail (suc fuel) offset a t h m =
        let size = At-length tail h in reject_if-stop _ _ (ground arith)
    records-first (handshake major minor ms ∷ rs) tail (suc fuel) offset a t h m =
        let h3 = At-skip (22 ∷ major ∷ minor ∷ []) _ (offset + 3) h refl in
        let h5 = At-past16 (messages_length ms) (offset + 5) h3 (omega arith) in
        let size : length buffer
            ≡ offset + 5 + (messages_length ms + length (put_records rs tail)) =
          omega (
            arith,
            At-length (put_messages ms (put_records rs tail)) h5,
            length-put_messages ms (put_records rs tail),
          ) in
        reject_if-pass _ _ (ground arith) (
          bind-ok _ _ (At-u8 22 offset h refl) (
            bind-ok _ _ (At-u16 (messages_length ms) (offset + 3) h3 refl a.0.1) (
              reject_if-pass _ _ (ground arith) (
                ap₂
                  (λ (found : Result (Option Found)) (next : Result Found).
                    found >>= λ x. return_or x next)
                  (branch-true _ _ _ refl (
                    messages-first ms (put_records rs tail) (length buffer) (offset + 5)
                      (offset + 5 + messages_length ms) a.0.0 h5 refl (omega arith)))
                  (records-first rs tail fuel (offset + 5 + messages_length ms) a.1 t
                    (past ms (put_records rs tail) (offset + 5) h5) (omega arith))))))
    records-first (opaque type major minor content ∷ rs) tail (suc fuel) offset a t h m =
        let h3 = At-skip (type ∷ major ∷ minor ∷ []) _ (offset + 3) h refl in
        let h5 = At-past16 (length content) (offset + 5) h3 (omega arith) in
        let size : length buffer ≡ offset + 5 + (length content + length (put_records rs tail)) =
          omega (
            arith,
            At-length (content ++ put_records rs tail) h5,
            length-append content (put_records rs tail),
          ) in
        reject_if-pass _ _ (ground arith) (
          bind-ok _ _ (At-u8 type offset h refl) (
            bind-ok _ _ (At-u16 (length content) (offset + 3) h3 refl a.0.1) (
              reject_if-pass _ _ (ground arith) (
                bind-ok _ _ (branch-false _ _ _ (ground arith) refl) (
                  records-first rs tail fuel (offset + 5 + length content) a.1 t
                    (At-skip content _ _ h5 refl) (omega arith))))))

    -- On whole records with less than a record header behind them, `find_handshake` answers for the
    -- first handshake message of the wanted kind, which it hands over without what follows; it
    -- rejects the bytes if there is none.
    pub find_handshake-put :
        (rs : List TlsRecord) (tail : List ℕ)
        → AllRecords rs
        → length tail < 5
        → buffer ≡ put_records rs tail
        → find_handshake sha512 wanted buffer ≡ first_in_records sha512 wanted rs
    unfolding find_handshake
    find_handshake-put rs tail a t e =
        records-first rs tail (length buffer + 1) 0 a t
          (record { front = []; splits = e; index = refl }) (omega arith)

  -- The header of a record, and what follows the record.
  record-header :
      (r : TlsRecord) (rest : List ℕ) (i : ℕ)
      → IsRecord r
      → At buffer i (put_record r rest)
      → (read buffer i ≡ ok (content_type_of r))
        × (read16 buffer (i + 3) ≡ ok (content_length r))
        × At buffer (i + 5 + content_length r) rest
  unfolding put_record
  record-header (handshake major minor ms) rest i a h =
      let h3 = At-skip (22 ∷ major ∷ minor ∷ []) _ (i + 3) h refl in
      let h5 = At-past16 (messages_length ms) (i + 5) h3 (omega arith) in
      (At-u8 22 i h refl, At-u16 _ _ h3 refl a.1, past ms rest (i + 5) h5)
  record-header (opaque type major minor content) rest i a h =
      let h3 = At-skip (type ∷ major ∷ minor ∷ []) _ (i + 3) h refl in
      let h5 = At-past16 (length content) (i + 5) h3 (omega arith) in
      (At-u8 type i h refl, At-u16 _ _ h3 refl a.1, At-skip content rest _ h5 refl)

  records-encrypted :
      (rs : List TlsRecord) (tail : List ℕ) (fuel offset : ℕ)
      → AllRecords rs
      → length tail < 5
      → At buffer offset (put_records rs tail)
      → length buffer < offset + fuel
      → encrypted_records fuel buffer offset ≡ ok (any_encrypted rs)
  unfolding encrypted_records any_encrypted
  records-encrypted rs tail zero offset a t h m =
      absurd (omega (arith, At-length (put_records rs tail) h))
  records-encrypted [] tail (suc fuel) offset a t h m =
      let size = At-length tail h in branch-true _ _ _ (ground arith) refl
  records-encrypted (r ∷ rs) tail (suc fuel) offset a t h m =
      let (type, size, next) = record-header r (put_records rs tail) offset a.0 h in
      let whole = At-length (put_records rs tail) next in
      branch-false _ _ _ (ground arith) (
        bind-ok _ _ size (
          branch-false _ _ _ (ground arith) (
            bind-ok _ _ type
              (elim (Bool-cases (content_type_of r == 23 && ltb 0 (content_length r))) [
                | inl found ↦ branch-true _ _ _ found (ground arith)
                | inr other ↦ branch-false _ _ _ other (
                    records-encrypted rs tail fuel (offset + 5 + content_length r) a.1 t next
                      (omega arith)
                    ∙ ap ok (ground arith))
              ]))))

  -- On whole records with less than a record header behind them,
  -- `tcpra_tls_contains_encrypted_record` tells whether one of them is application data that is
  -- not empty.
  pub contains_encrypted_record-put :
      (rs : List TlsRecord) (tail : List ℕ)
      → AllRecords rs
      → length tail < 5
      → buffer ≡ put_records rs tail
      → tls_contains_encrypted_record buffer ≡ ok (any_encrypted rs)
  unfolding tls_contains_encrypted_record
  contains_encrypted_record-put rs tail a t e =
      records-encrypted rs tail (length buffer + 1) 0 a t
        (record { front = []; splits = e; index = refl }) (omega arith)
