-- ===== src/Crypto.antt =====
-- crypto.py: the password and the derivation of the key. Its calls of the cipher are Aead's.
use mosaic_archive.Base.{
  ℕ, ◌^◌, Bytes, length, ◌==◌, not, Result, ok, raise_if, ◌>>=◌, ◌>>◌, value_error,
}

-- For a password of bytes.
unfoldable pub normalize_password : Bytes → Result Bytes
normalize_password password = do raise_if (length password == 0) value_error; ok password

-- `scrypt` stands for the package's function of the salt, n, r, p and the password.
unfoldable pub derive_key :
    (Bytes → ℕ → ℕ → ℕ → Bytes → Bytes) → Bytes → Bytes → ℕ → ℕ → ℕ → Result Bytes
unfolding normalize_password
derive_key scrypt password salt log_n r p = do
  raise_if (not (length salt == 16)) value_error
  encoded ← normalize_password password
  ok (scrypt salt (2 ^ log_n) r p encoded)
