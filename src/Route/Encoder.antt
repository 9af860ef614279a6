-- ===== src/Route/Encoder.antt =====
-- `CanonicalEncoder` of src/context_route.rs: the bytes fed to the hasher, each value behind its
-- length as eight big-endian bytes. The hasher itself (SHA-256, in hexadecimal) is a parameter.
pub mod Framing
use workspace_atlas.Common.{
  ℕ, zero, suc, ◌/◌, ◌%◌, ◌^◌, Text, List, [], ◌∷◌, ◌++◌, Option, none, some, length,
}

-- `to_be_bytes` of a `k`-byte integer.
unfoldable pub be_bytes : ℕ → ℕ → List ℕ
be_bytes zero n = []
be_bytes (suc k) n = (n / 256 ^ k) % 256 ∷ be_bytes k n

-- The bytes that `hasher.update` has been given.
pub record CanonicalEncoder : Type 0 where
  pub fed : List ℕ

-- An encoder call, and the next one.
infixl 5 ◌▷◌
abbrev pub ◌▷◌ : CanonicalEncoder → (CanonicalEncoder → CanonicalEncoder) → CanonicalEncoder
e ▷ f = f e

unfoldable pub bytes : List ℕ → CanonicalEncoder → CanonicalEncoder
unfolding be_bytes
bytes value e = record { fed = e.fed ++ (be_bytes 8 (length value) ++ value) }

unfoldable pub text : Text → CanonicalEncoder → CanonicalEncoder
unfolding bytes
text value = bytes value

unfoldable pub optional_text : Option Text → CanonicalEncoder → CanonicalEncoder
unfolding bytes text
optional_text (some value) e = e ▷ bytes (1 ∷ []) ▷ text value
optional_text none e = e ▷ bytes (0 ∷ [])

unfoldable pub u64 : ℕ → CanonicalEncoder → CanonicalEncoder
unfolding bytes be_bytes
u64 value = bytes (be_bytes 8 value)

-- `new`: the domain comes first.
unfoldable pub encoder : Text → CanonicalEncoder
unfolding text
encoder domain = record { fed = [] } ▷ text domain

module _ (hash : List ℕ → Text) where
  unfoldable pub finish : CanonicalEncoder → Text
  finish e = hash e.fed
