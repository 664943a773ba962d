-- ===== src/Archive/Samples.antt =====
-- Stand-ins for the packages that the tests of the archives run on.
use mosaic_archive.Base.{ℕ, refl, replicate, length-replicate}
use mosaic_archive.Aead.Plain as PlainCipher
use mosaic_archive.Text.Plain as PlainText
use mosaic_archive.Modes.Deflate.Stored.{stored, stored_laws}
use mosaic_archive.Archive.Types.{Platform}
use mosaic_archive.Archive.RoundTrip.{PlatformLaws}

abbrev pub sample : Platform
sample = record {
  zlib = stored;
  unicode = PlainText.plain;
  cipher = PlainCipher.plain;
  sha256 = λ b. replicate 32 0;
  scrypt = λ salt n r p password. replicate 32 1;
  random_salt = replicate 16 2;
  random_nonce = replicate 12 3;
  random_padding = λ n. replicate n 4;
}

pub sample_laws : PlatformLaws sample
sample_laws = record {
  zlib_laws = stored_laws;
  unicode_laws = PlainText.plain_laws;
  cipher_laws = PlainCipher.plain-laws;
  key_size = λ salt n r p password. length-replicate {A = ℕ} 32 1;
  digest_size = λ b. length-replicate {A = ℕ} 32 0;
  salt_size = refl;
  nonce_size = refl;
  padding_random = λ n. length-replicate {A = ℕ} n 4;
}
