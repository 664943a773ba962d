-- ===== src/Aead/Plain.antt =====
-- A stand-in for the cipher, for the tests: it adds sixteen zeros and takes them off again, and
-- raises where the package does.
use mosaic_archive.Base.{
  ◌-◌, ◌^◌, ◌<◌, ◌≡◌, refl, ◌++◌, Bytes, length, length-append, take, take-append, replicate,
  Result, ok, raise_if, ◌>>◌, arith, ltb, ◌==◌, ◌||◌, not, le→ltb_false, value_error,
  overflow_error,
}
use mosaic_archive.Aead.{Aead, AeadLaws, Sealed}

unfoldable pub seal : Bytes → Bytes → Bytes → Bytes → Result Bytes
seal key nonce text extra = do
  raise_if (not (length key == 32)) value_error
  raise_if (ltb (2 ^ 31 - 1) (length text) || ltb (2 ^ 31 - 1) (length extra)) overflow_error
  raise_if (not (length nonce == 12)) value_error
  ok (text ++ replicate 16 0)

abbrev pub plain : Aead
plain = record {
  encrypt = seal;
  decrypt = λ key nonce sealed extra. ok (take (length sealed - 16) sealed);
}

Sealed-text :
    (key nonce text extra : Bytes)
    → length key ≡ 32
    → length nonce ≡ 12
    → length text < 2 ^ 31
    → length extra < 2 ^ 31
    → Sealed plain key nonce text extra
unfolding seal
Sealed-text key nonce text extra k n t e =
    let sized = length-append text (replicate 16 0) in
    record {
      sealed = text ++ replicate 16 0;
      encrypts =
          rw
            (
              k,
              le→ltb_false (length text) (2 ^ 31 - 1) (omega arith),
              le→ltb_false (length extra) (2 ^ 31 - 1) (omega arith),
              n,
            )
            refl;
      sized = sized;
      opens =
          rw
            (take-append (length (text ++ replicate 16 0) - 16) text (replicate 16 0)
              (omega (arith, sized)))
            refl;
    }

pub plain-laws : AeadLaws plain
plain-laws = record { seals = Sealed-text }
