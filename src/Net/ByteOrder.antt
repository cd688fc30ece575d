-- ===== src/Net/ByteOrder.antt =====
-- Byte order.
use nix_core_os.Base.{ℕ, ◌<◌, ◌≡◌, ◌^◌, refl, arith, ◌∷◌, []}
use nix_core_os.Net.{htons, ntohs, htonl, ntohl, le32}
use nix_core_os.Link.{be16, be32, le16}

four :
    {a b c d a' b' c' d' : ℕ}
    → a ≡ a'
    → b ≡ b'
    → c ≡ c'
    → d ≡ d'
    → (a ∷ b ∷ c ∷ d ∷ []) ≡ (a' ∷ b' ∷ c' ∷ d' ∷ [])
four p q r s = rw (p, q, r, s) refl

-- For words of 16 and 32 bits, `ntohs` and `ntohl` undo `htons` and `htonl`, and what `htons` and `htonl`
-- return has in memory the bytes of the word, the highest first.
pub ntohl-htonl :
    (v w : ℕ)
    → v < 2 ^ 16
    → w < 2 ^ 32
    → (ntohs (htons v) ≡ v)
      × (ntohl (htonl w) ≡ w)
      × (le16 (htons v) ≡ be16 v)
      × (le32 (htonl w) ≡ be32 w)
unfolding htons ntohs htonl ntohl
ntohl-htonl v w h k = (
  omega arith,
  omega arith,
  ground arith,
  four (omega arith) (omega arith) (omega arith) (omega arith),
)
