-- ===== src/Tls/Safety.antt =====
-- The parser of agents/linux/tls_parse.c reads inside its buffers, ends, and returns keys and public
-- keys of the sizes that its callers rely on.
use tlslatch.Base.{
  ℕ, zero, suc, ◌+◌, ◌≤◌, ◌<◌, ◌≡◌, List, Option, none, some, length, arith, Result, ◌>>=◌, Safe,
  returns, rejects, Safe->>=, Safe-reject_if, Safe-branch, Safe-read, Safe-slice, ltb→le,
}
use tlslatch.Tls.Digest.{
  read16, read24, key_sized, digest, digest_share, client_lookup_from_key_share,
}
use tlslatch.Tls.Hello.{
  ServerShare, clienthello_extensions, extract_clienthello_lookup, serverhello_extensions,
  extract_serverhello,
}

abbrev pub IsKey : List ℕ → Type 0
IsKey key = length key ≡ 64

pub record IsShare (share : ServerShare) : Type 0 where
  pub public_size : length share.public_key ≡ share.public_key_length
  pub not_empty : 0 < share.public_key_length
  pub small : share.public_key_length ≤ 128
  pub key_size : IsKey share.report_key

module _ {B : Type 0} {Q : B → Type 0} (buffer : List ℕ) (i : ℕ) (f : ℕ → Result B) where
  pub Safe-read16 :
      i + 1 < length buffer → ((v : ℕ) → Safe Q (f v)) → Safe Q (read16 buffer i >>= f)
  unfolding read16
  Safe-read16 h k =
      Safe->>= {P = λ _. Unit {0}} _ _
        (Safe-read _ _ _ (omega arith) λ hi. Safe-read _ _ _ h λ lo. returns _ tt) λ v _. k v

  pub Safe-read24 :
      i + 2 < length buffer → ((v : ℕ) → Safe Q (f v)) → Safe Q (read24 buffer i >>= f)
  unfolding read24
  Safe-read24 h k =
      Safe->>= {P = λ _. Unit {0}} _ _
        (Safe-read _ _ _ (omega arith)
          λ _. Safe-read _ _ _ (omega arith) λ _. Safe-read _ _ _ h λ _. returns _ tt)
        (λ v _. k v)

key_sized-IsKey : (out : Option (List ℕ)) → Safe IsKey (key_sized out)
unfolding key_sized
key_sized-IsKey none = rejects
key_sized-IsKey (some out) = Safe-reject_if _ _ λ h. returns out (ground arith)

module _ (sha512 : List ℕ → Option (List ℕ)) where
  pub digest-IsKey : (input : List ℕ) → Safe IsKey (digest sha512 input)
  unfolding digest
  digest-IsKey input = key_sized-IsKey (sha512 input)

  lookup-IsKey : (extension : List ℕ) → Safe IsKey (client_lookup_from_key_share sha512 extension)
  unfolding client_lookup_from_key_share digest_share
  lookup-IsKey extension = Safe-reject_if _ _ λ h.
      Safe-read16 _ _ _ (omega (arith, ltb→le _ _ h))
        λ shares. Safe-reject_if _ _ λ _. digest-IsKey _

  clienthello_extensions-Safe :
      (fuel : ℕ) (buffer : List ℕ) (offset extensions_end : ℕ)
      → offset ≤ extensions_end
      → extensions_end ≤ length buffer
      → extensions_end < offset + fuel
      → Safe IsKey (clienthello_extensions sha512 fuel buffer offset extensions_end)
  unfolding clienthello_extensions
  clienthello_extensions-Safe zero buffer offset extensions_end l h m = absurd (omega arith)
  clienthello_extensions-Safe (suc fuel) buffer offset extensions_end l h m =
      Safe-reject_if _ _ λ more. Safe-read16 _ _ _ (ground arith) λ type.
        Safe-read16 _ _ _ (ground arith) λ n. Safe-reject_if _ _ λ fits.
          Safe-branch _ _ _ (λ found. Safe-slice _ _ _ _ (ground arith) λ part e. lookup-IsKey part)
            (λ other.
              clienthello_extensions-Safe fuel buffer (offset + 4 + n) extensions_end (ground arith)
                h (omega arith))

  -- For any buffer at all, `tcpra_extract_clienthello_lookup` reads inside it, its loop ends, and a
  -- key that it stores has 64 bytes.
  pub extract_clienthello_lookup-Safe :
      (buffer : List ℕ) → Safe IsKey (extract_clienthello_lookup sha512 buffer)
  unfolding extract_clienthello_lookup
  extract_clienthello_lookup-Safe buffer = Safe-reject_if _ _ λ h1.
      Safe-read _ _ _ (ground arith) λ message. Safe-reject_if _ _ λ _.
        Safe-read24 _ _ _ (ground arith) λ body. Safe-reject_if _ _ λ h2. Safe-reject_if _ _ λ h3.
          Safe-read _ _ _ (ground arith) λ session_id. Safe-reject_if _ _ λ h4.
            Safe-read16 _ _ _ (ground arith) λ suites. Safe-reject_if _ _ λ h5.
              Safe-read _ _ _ (ground arith) λ compression. Safe-reject_if _ _ λ h6.
                Safe-read16 _ _ _ (ground arith) λ extensions. Safe-reject_if _ _ λ h7.
                  clienthello_extensions-Safe _ _ _ _ (omega arith) (ground arith) (ground arith)

  serverhello_extensions-Safe :
      (fuel : ℕ) (buffer : List ℕ) (offset extensions_end : ℕ)
      → offset ≤ extensions_end
      → extensions_end ≤ length buffer
      → extensions_end < offset + fuel
      → Safe IsShare (serverhello_extensions sha512 fuel buffer offset extensions_end)
  unfolding serverhello_extensions digest_share
  serverhello_extensions-Safe zero buffer offset extensions_end l h m = absurd (omega arith)
  serverhello_extensions-Safe (suc fuel) buffer offset extensions_end l h m =
      Safe-reject_if _ _ λ more. Safe-read16 _ _ _ (ground arith) λ type.
        Safe-read16 _ _ _ (ground arith) λ n. Safe-reject_if _ _ λ fits.
          Safe-branch _ _ _
            (λ found. Safe-read16 _ _ _ (ground arith) λ key_length. Safe-reject_if _ _ λ sizes.
              Safe-read16 _ _ _ (ground arith) λ group_id.
                Safe-slice _ _ _ _ (ground arith) λ public_key e.
                  Safe-slice _ _ _ _ (ground arith) λ extension _.
                    Safe->>= _ _ (digest-IsKey _) λ report_key k. returns _ (ground arith))
            (λ other.
              serverhello_extensions-Safe fuel buffer (offset + 4 + n) extensions_end (ground arith)
                h (omega arith))

  -- For any buffer at all, `tcpra_extract_serverhello` reads inside it, its loop ends, and what it
  -- stores is a public key of 1 to 128 bytes, its length, and a report key of 64 bytes.
  pub extract_serverhello-Safe :
      (buffer : List ℕ) → Safe IsShare (extract_serverhello sha512 buffer)
  unfolding extract_serverhello
  extract_serverhello-Safe buffer = Safe-reject_if _ _ λ h1.
      Safe-read _ _ _ (ground arith) λ message. Safe-reject_if _ _ λ _.
        Safe-read24 _ _ _ (ground arith) λ body. Safe-reject_if _ _ λ h2. Safe-reject_if _ _ λ h3.
          Safe-read _ _ _ (ground arith) λ session_id. Safe-reject_if _ _ λ h4.
            Safe-reject_if _ _ λ h5. Safe-read16 _ _ _ (ground arith) λ extensions.
              Safe-reject_if _ _ λ h7.
                serverhello_extensions-Safe _ _ _ _ (omega arith) (ground arith) (ground arith)
