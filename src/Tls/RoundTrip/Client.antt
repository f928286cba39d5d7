-- ===== src/Tls/RoundTrip/Client.antt =====
-- `tcpra_extract_clienthello_lookup` on the ClientHello messages of RFC 8446.
use tlslatch.Base.{
  ℕ, zero, suc, ◌+◌, ◌≤◌, ◌<◌, ◌≡◌, refl, sym, ◌∙◌, List, [], ◌∷◌, ◌++◌, Option, length, leb, arith,
  Bool-cases, inl, inr,
}
use tlslatch.Tls.Digest.{digest, digest_share, clienthello_label, client_lookup_from_key_share}
use tlslatch.Tls.Hello.{clienthello_extensions, extract_clienthello_lookup, key_share}
use tlslatch.Tls.Cursor.{
  At, At-start, At-length, At-skip, At-slice, At-u8, At-u16, At-u24, At-past8, At-past16, At-past24,
  bind-ok, reject_if-pass, reject_if-stop, branch-true, branch-false,
}
use tlslatch.Tls.Format.{
  Extension, client_shares, server_share, other, put16, put_extension, put_extensions,
  length-put_extensions, extensions_length, All, IsClientExtension, ClientHello, IsClientHello,
  client_length, put_clienthello, lookup_key,
}

module _ (sha512 : List ℕ → Option (List ℕ)) (buffer : List ℕ) where
  -- The digest of the extension that holds the shares.
  shares-lookup :
      (entries : List ℕ)
      → 4 ≤ length entries
      → 2 + length entries < 65536
      → client_lookup_from_key_share sha512 (put16 (length entries) entries)
        ≡ digest sha512 (clienthello_label ++ put16 (length entries) entries)
  unfolding client_lookup_from_key_share digest_share
  shares-lookup entries h l = reject_if-pass _ _ (ground arith) (
      bind-ok _ _ (At-u16 (length entries) 0 (At-start _) refl (omega arith))
        (reject_if-pass _ _ (ground arith) refl))

  extensions-lookup :
      (es : List Extension) (rest : List ℕ) (fuel offset extensions_end : ℕ)
      → All IsClientExtension es
      → At buffer offset (put_extensions es rest)
      → extensions_end ≡ offset + extensions_length es
      → extensions_end < offset + fuel
      → clienthello_extensions sha512 fuel buffer offset extensions_end ≡ lookup_key sha512 es
  unfolding clienthello_extensions lookup_key put_extension
  extensions-lookup es rest zero offset extensions_end a h e m = absurd (omega arith)
  extensions-lookup [] rest (suc fuel) offset extensions_end a h e m =
      reject_if-stop _ _ (ground arith)
  extensions-lookup (client_shares entries ∷ es) rest (suc fuel) offset extensions_end a h e m =
      let h2 = At-past16 key_share (offset + 2) h refl in
      let h4 = At-past16 (2 + length entries) (offset + 4) h2 (omega arith) in
      reject_if-pass _ _ (ground arith) (
        bind-ok _ _ (At-u16 key_share offset h refl (omega arith)) (
          bind-ok _ _ (At-u16 (2 + length entries) (offset + 2) h2 refl a.0) (
            reject_if-pass _ _ (ground arith) (elim (Bool-cases (leb 4 (length entries))) [
              | inl yes4 ↦ branch-true _ _ _ (ground arith) (
                  bind-ok _ _
                    (At-slice (put16 (length entries) entries) _ (2 + length entries) h4
                      (omega arith))
                    (shares-lookup entries (ground arith) a.0 ∙ sym (branch-true _ _ _ yes4 refl)))
              | inr no4 ↦ branch-false _ _ _ (ground arith) (
                  extensions-lookup es rest fuel (offset + 4 + (2 + length entries)) extensions_end
                    a.1 (At-skip (put16 (length entries) entries) _ _ h4 (omega arith))
                    (omega arith) (omega arith)
                  ∙ sym (branch-false _ _ _ no4 refl))
            ]))))
  extensions-lookup (server_share group key ∷ es) rest (suc fuel) offset extensions_end a h e m =
      absurd a.0
  extensions-lookup (other type body ∷ es) rest (suc fuel) offset extensions_end a h e m =
      let h2 = At-past16 type (offset + 2) h refl in
      let h4 = At-past16 (length body) (offset + 4) h2 (omega arith) in
      reject_if-pass _ _ (ground arith) (
        bind-ok _ _ (At-u16 type offset h refl a.0.0) (
          bind-ok _ _ (At-u16 (length body) (offset + 2) h2 refl a.0.2) (
            reject_if-pass _ _ (ground arith) (
              branch-false _ _ _ (ground arith) (
                extensions-lookup es rest fuel (offset + 4 + length body) extensions_end a.1
                  (At-skip body _ _ h4 refl) (omega arith) (omega arith))))))

  -- The lookup key that `tcpra_extract_clienthello_lookup` takes from a ClientHello, whatever follows
  -- it in the buffer, is the digest of the first key shares extension of at least one entry's
  -- length; a hello with none is rejected.
  pub extract_clienthello_lookup-put :
      (m : ClientHello) (rest : List ℕ)
      → IsClientHello m
      → buffer ≡ put_clienthello m rest
      → extract_clienthello_lookup sha512 buffer ≡ lookup_key sha512 m.extensions
  unfolding extract_clienthello_lookup put_clienthello
  extract_clienthello_lookup-put m rest v eq =
      let h0 : At buffer 0 (put_clienthello m rest) = record {
        front = [];
        splits = eq;
        index = refl;
      } in
      let h1 = At-past8 1 1 h0 (omega arith) in
      let h4 = At-past24 (client_length m) 4 h1 (omega arith) in
      let h38 = At-skip m.version_and_random _ 38 h4 (omega arith) in
      let at_session = At-past8 (length m.session_id) 39 h38 (omega arith) in
      let at_suites = At-skip m.session_id _ (39 + length m.session_id) at_session refl in
      let i = 39 + length m.session_id in
      let past_suites = At-past16 (length m.suites) (i + 2) at_suites refl in
      let at_compression = At-skip m.suites _ (i + 2 + length m.suites) past_suites refl in
      let j = i + 2 + length m.suites in
      let past_compression = At-past8 (length m.compression) (j + 1) at_compression refl in
      let at_extensions =
        At-skip m.compression _ (j + 1 + length m.compression) past_compression refl in
      let k = j + 1 + length m.compression in
      let past_extensions = At-past16 (extensions_length m.extensions) (k + 2) at_extensions refl in
      let size : length buffer ≡ k + 2 + (extensions_length m.extensions + length rest) = omega (
        arith,
        At-length (put_extensions m.extensions rest) past_extensions,
        length-put_extensions m.extensions rest,
      ) in
      reject_if-pass _ _ (ground arith) (
        bind-ok _ _ (At-u8 1 0 h0 refl) (
          reject_if-pass _ _ refl (
            bind-ok _ _ (At-u24 (client_length m) 1 h1 refl (omega arith)) (
              reject_if-pass _ _ (ground arith) (
                reject_if-pass _ _ (ground arith) (
                  bind-ok _ _ (At-u8 (length m.session_id) 38 h38 refl) (
                    reject_if-pass _ _ (ground arith) (
                      bind-ok _ _ (At-u16 (length m.suites) i at_suites refl v.suites_fit) (
                        reject_if-pass _ _ (ground arith) (
                          bind-ok _ _ (At-u8 (length m.compression) j at_compression refl) (
                            reject_if-pass _ _ (ground arith) (
                              bind-ok _ _
                                (At-u16 (extensions_length m.extensions) k at_extensions refl
                                  v.extensions_fit)
                                (reject_if-pass _ _ (ground arith) (
                                  extensions-lookup m.extensions rest (length buffer) (k + 2)
                                    (k + 2 + extensions_length m.extensions) v.each past_extensions
                                    refl (omega arith)))))))))))))))
