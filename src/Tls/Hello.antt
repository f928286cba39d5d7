-- ===== src/Tls/Hello.antt =====
-- `tcpra_extract_clienthello_lookup` and `tcpra_extract_serverhello` of agents/linux/tls_parse.c.
-- A pointer with its length is one list of bytes. A `while` loop takes fuel; the length of the
-- buffer is enough, since each round moves the offset forward.
use tlslatch.Base.{
  ℕ, zero, suc, ◌+◌, List, Option, length, ltb, leb, ◌==◌, ◌/=◌, ◌&&◌, ◌||◌, read, slice, Result,
  ok, stuck, ◌>>=◌, ◌>>◌, reject_if, branch,
}
use tlslatch.Tls.Digest.{
  serverhello_label, max_public_key, read16, read24, digest_share, client_lookup_from_key_share,
}

-- What `tcpra_extract_serverhello` stores through its pointers.
pub record ServerShare : Type 0 where
  pub group_id : ℕ
  pub public_key : List ℕ
  pub public_key_length : ℕ
  pub report_key : List ℕ

-- The extension that holds the key shares.
abbrev pub key_share : ℕ
key_share = 51

module _ (sha512 : List ℕ → Option (List ℕ)) where
  unfoldable pub clienthello_extensions : ℕ → List ℕ → ℕ → ℕ → Result (List ℕ)
  clienthello_extensions zero buffer offset extensions_end = stuck
  clienthello_extensions (suc fuel) buffer offset extensions_end = do
    reject_if (ltb extensions_end (offset + 4))
    type ← read16 buffer offset
    extension_length ← read16 buffer (offset + 2)
    reject_if (ltb extensions_end (offset + 4 + extension_length))
    branch (type == key_share && leb 6 extension_length)
        (do
          extension ← slice buffer (offset + 4) extension_length
          client_lookup_from_key_share sha512 extension)
        (clienthello_extensions fuel buffer (offset + 4 + extension_length) extensions_end)

  unfoldable pub extract_clienthello_lookup : List ℕ → Result (List ℕ)
  extract_clienthello_lookup buffer = do
    reject_if (ltb (length buffer) 4)
    message ← read buffer 0
    reject_if (message /= 1)
    body ← read24 buffer 1
    reject_if (ltb (length buffer) (body + 4) || ltb body 34)
    let offset : ℕ = 4 + 2 + 32
    reject_if (leb (length buffer) offset)
    session_id ← read buffer offset
    reject_if (ltb (length buffer) (offset + 1 + session_id + 2))
    let offset = offset + 1 + session_id
    suites ← read16 buffer offset
    reject_if (ltb (length buffer) (offset + 2 + suites + 1))
    let offset = offset + 2 + suites
    compression ← read buffer offset
    reject_if (ltb (length buffer) (offset + 1 + compression + 2))
    let offset = offset + 1 + compression
    extensions ← read16 buffer offset
    reject_if (ltb (length buffer) (offset + 2 + extensions))
    clienthello_extensions (length buffer) buffer (offset + 2) (offset + 2 + extensions)

  unfoldable pub serverhello_extensions : ℕ → List ℕ → ℕ → ℕ → Result ServerShare
  serverhello_extensions zero buffer offset extensions_end = stuck
  serverhello_extensions (suc fuel) buffer offset extensions_end = do
    reject_if (ltb extensions_end (offset + 4))
    type ← read16 buffer offset
    extension_length ← read16 buffer (offset + 2)
    reject_if (ltb extensions_end (offset + 4 + extension_length))
    branch (type == key_share && leb 4 extension_length)
        (do
          key_length ← read16 buffer (offset + 4 + 2)
          reject_if (
              key_length == 0
              || ltb max_public_key key_length
              || (key_length + 4) /= extension_length)
          group_id ← read16 buffer (offset + 4)
          public_key ← slice buffer (offset + 4 + 4) key_length
          extension ← slice buffer (offset + 4) extension_length
          report_key ← digest_share sha512 serverhello_label extension
          ok (record {
            group_id = group_id;
            public_key = public_key;
            public_key_length = key_length;
            report_key = report_key;
          }))
        (serverhello_extensions fuel buffer (offset + 4 + extension_length) extensions_end)

  unfoldable pub extract_serverhello : List ℕ → Result ServerShare
  extract_serverhello buffer = do
    reject_if (ltb (length buffer) 4)
    message ← read buffer 0
    reject_if (message /= 2)
    body ← read24 buffer 1
    reject_if (ltb (length buffer) (body + 4) || ltb body 38)
    let offset : ℕ = 4 + 2 + 32
    reject_if (leb (length buffer) offset)
    session_id ← read buffer offset
    reject_if (ltb (length buffer) (offset + 1 + session_id + 3))
    let offset = offset + 1 + session_id + 2 + 1
    reject_if (ltb (length buffer) (offset + 2))
    extensions ← read16 buffer offset
    reject_if (ltb (length buffer) (offset + 2 + extensions))
    serverhello_extensions (length buffer) buffer (offset + 2) (offset + 2 + extensions)
