-- ===== src/Tls/RoundTrip/Server.antt =====
-- `tcpra_extract_serverhello` on the ServerHello messages of RFC 8446.
use tlslatch.Base.{
  ℕ, zero, suc, ◌+◌, ◌<◌, ◌≡◌, refl, sym, ◌∙◌, List, [], ◌∷◌, Option, length, ltb, ◌==◌, ◌||◌,
  arith, ok, ◌>>=◌, reject_if, Bool-cases, inl, inr,
}
use tlslatch.Tls.Digest.{digest_share, report_key_from_public}
use tlslatch.Tls.Hello.{ServerShare, serverhello_extensions, extract_serverhello, key_share}
use tlslatch.Tls.Cursor.{
  At, At-length, At-skip, At-slice, At-u8, At-u16, At-u24, At-past8, At-past16, At-past24, bind-ok,
  reject_if-pass, reject_if-stop, branch-true, branch-false,
}
use tlslatch.Tls.Format.{
  Extension, client_shares, server_share, other, put16, put_extension, put_extensions,
  extensions_length, length-put_extensions, All, IsServerExtension, ServerHello, IsServerHello,
  server_length, put_serverhello, server_key,
}

module _ (sha512 : List ℕ → Option (List ℕ)) (buffer : List ℕ) where
  extensions-key :
      (es : List Extension) (rest : List ℕ) (fuel offset extensions_end : ℕ)
      → All IsServerExtension es
      → At buffer offset (put_extensions es rest)
      → extensions_end ≡ offset + extensions_length es
      → extensions_end < offset + fuel
      → serverhello_extensions sha512 fuel buffer offset extensions_end ≡ server_key sha512 es
  unfolding serverhello_extensions server_key put_extension digest_share
  extensions-key es rest zero offset extensions_end a h e m = absurd (omega arith)
  extensions-key [] rest (suc fuel) offset extensions_end a h e m =
      reject_if-stop _ _ (ground arith)
  extensions-key (client_shares entries ∷ es) rest (suc fuel) offset extensions_end a h e m =
      absurd a.0
  extensions-key (server_share group key ∷ es) rest (suc fuel) offset extensions_end a h e m =
      let h2 = At-past16 key_share (offset + 2) h refl in
      let h4 = At-past16 (4 + length key) (offset + 4) h2 (omega arith) in
      let h6 = At-past16 group (offset + 4 + 2) h4 refl in
      let h8 = At-past16 (length key) (offset + 4 + 4) h6 (omega arith) in
      reject_if-pass _ _ (ground arith) (
        bind-ok _ _ (At-u16 key_share offset h refl (omega arith)) (
          bind-ok _ _ (At-u16 (4 + length key) (offset + 2) h2 refl a.0.1) (
            reject_if-pass _ _ (ground arith) (
              branch-true _ _ _ (ground arith) (
                bind-ok _ _ (At-u16 (length key) (offset + 4 + 2) h6 refl (omega arith))
                  (elim (Bool-cases (length key == 0 || ltb 128 (length key))) [
                    | inl bad ↦ reject_if-stop _ _ (ground arith) ∙ sym (reject_if-stop _ _ bad)
                    | inr good ↦ reject_if-pass _ _ (ground arith) (
                        bind-ok _ _ (At-u16 group (offset + 4) h4 refl a.0.0) (
                          bind-ok _ _ (At-slice key _ (length key) h8 refl) (
                            bind-ok _ _
                              (At-slice (put16 group (put16 (length key) key)) _ (4 + length key) h4
                                (omega arith))
                              (sym (reject_if-pass _ _ good refl)))))
                  ]))))))
  extensions-key (other type body ∷ es) rest (suc fuel) offset extensions_end a h e m =
      let h2 = At-past16 type (offset + 2) h refl in
      let h4 = At-past16 (length body) (offset + 4) h2 (omega arith) in
      reject_if-pass _ _ (ground arith) (
        bind-ok _ _ (At-u16 type offset h refl a.0.0) (
          bind-ok _ _ (At-u16 (length body) (offset + 2) h2 refl a.0.2) (
            reject_if-pass _ _ (ground arith) (
              branch-false _ _ _ (ground arith) (
                extensions-key es rest fuel (offset + 4 + length body) extensions_end a.1
                  (At-skip body _ _ h4 refl) (omega arith) (omega arith))))))

  -- What `tcpra_extract_serverhello` takes from a ServerHello, whatever follows it in the buffer, is
  -- the group and the public key of its first key share, with the digest of the whole share; a
  -- hello with no share, or whose first public key is empty or longer than 128 bytes, is rejected.
  pub extract_serverhello-put :
      (m : ServerHello) (rest : List ℕ)
      → IsServerHello m
      → buffer ≡ put_serverhello m rest
      → extract_serverhello sha512 buffer ≡ server_key sha512 m.extensions
  unfolding extract_serverhello put_serverhello
  extract_serverhello-put m rest v eq =
      let h0 : At buffer 0 (put_serverhello m rest) = record {
        front = [];
        splits = eq;
        index = refl;
      } in
      let h1 = At-past8 2 1 h0 (omega arith) in
      let h4 = At-past24 (server_length m) 4 h1 (omega arith) in
      let h38 = At-skip m.version_and_random _ 38 h4 (omega arith) in
      let at_session = At-past8 (length m.session_id) 39 h38 (omega arith) in
      let at_suite = At-skip m.session_id _ (39 + length m.session_id) at_session refl in
      let at_compression = At-past16 m.suite (39 + length m.session_id + 2) at_suite refl in
      let k = 39 + length m.session_id + 2 + 1 in
      let at_extensions = At-past8 m.compression k at_compression refl in
      let past_extensions = At-past16 (extensions_length m.extensions) (k + 2) at_extensions refl in
      let size : length buffer ≡ k + 2 + (extensions_length m.extensions + length rest) = omega (
        arith,
        At-length (put_extensions m.extensions rest) past_extensions,
        length-put_extensions m.extensions rest,
      ) in
      reject_if-pass _ _ (ground arith) (
        bind-ok _ _ (At-u8 2 0 h0 refl) (
          reject_if-pass _ _ refl (
            bind-ok _ _ (At-u24 (server_length m) 1 h1 refl (omega arith)) (
              reject_if-pass _ _ (ground arith) (
                reject_if-pass _ _ (ground arith) (
                  bind-ok _ _ (At-u8 (length m.session_id) 38 h38 refl) (
                    reject_if-pass _ _ (ground arith) (
                      reject_if-pass _ _ (ground arith) (
                        bind-ok _ _
                          (At-u16 (extensions_length m.extensions) k at_extensions refl
                            v.extensions_fit)
                          (reject_if-pass _ _ (ground arith) (
                            extensions-key m.extensions rest (length buffer) (k + 2)
                              (k + 2 + extensions_length m.extensions) v.each past_extensions refl
                              (omega arith))))))))))))

module _ (sha512 : List ℕ → Option (List ℕ)) where
  -- `tcpra_report_key_from_public` computes the key that the format gives to the share.
  server_key-report_key :
      (es : List Extension) {share : ServerShare}
      → server_key sha512 es ≡ ok share
      → report_key_from_public sha512 share.group_id share.public_key ≡ ok share.report_key
  unfolding server_key report_key_from_public digest_share ◌>>=◌ reject_if
  server_key-report_key [] h = cc
  server_key-report_key (client_shares entries ∷ es) h = server_key-report_key es h
  server_key-report_key (other type body ∷ es) h = server_key-report_key es h
  server_key-report_key (server_share group key ∷ es) h = ground arith
