-- ===== src/Aead.antt =====
-- crypto.py: the cipher ChaCha20-Poly1305, which the cryptography package implements, as an
-- interface.
pub mod Plain
use mosaic_archive.Base.{◌+◌, ◌^◌, ◌<◌, ◌≡◌, Bytes, length, Result, ok}

-- `encrypt` and `decrypt` of crypto.py, each with the key, the nonce, the text and the associated
-- data. `encrypt` raises on a key, a nonce or sizes that the package does not admit; a text that
-- was not encrypted so is answered with an authentication error.
pub record Aead : Type 0 where
  pub encrypt : Bytes → Bytes → Bytes → Bytes → Result Bytes
  pub decrypt : Bytes → Bytes → Bytes → Bytes → Result Bytes

-- What encrypting comes to: the tag has 16 bytes, and decrypting under the same key, nonce and data
-- undoes it.
pub record Sealed (cipher : Aead) (key nonce text extra : Bytes) : Type 0 where
  pub sealed : Bytes
  pub encrypts : cipher.encrypt key nonce text extra ≡ ok sealed
  pub sized : length sealed ≡ length text + 16
  pub opens : cipher.decrypt key nonce sealed extra ≡ ok text

-- What the package documents, for a key of 32 bytes, a nonce of 12, and a text and data of at most
-- 2 ^ 31 - 1 bytes each; on others it raises.
pub record AeadLaws (cipher : Aead) : Type 0 where
  pub seals :
      (key nonce text extra : Bytes)
      → length key ≡ 32
      → length nonce ≡ 12
      → length text < 2 ^ 31
      → length extra < 2 ^ 31
      → Sealed cipher key nonce text extra
