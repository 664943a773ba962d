-- ===== src/Format/Parse.antt =====
-- What the parsers of the public headers share: the size of the data is tested, the data is
-- unpacked, and the values are accepted or refused.
use mosaic_archive.Base.{
  ok-inj, true, false, Error, ◌≡◌, refl, sym, ◌∙◌, ◌↔◌, Bool, not, Bytes, IsByte, All, length, ◌==◌,
  ==_refl, Result, ok, err, raise_if, ◌>>=◌, ◌>>◌, archive_format, raise_if-eq-ok, >>=-eq-ok,
}
use mosaic_archive.Struct.{Format, Values, size, pack, unpack, unpack_values}
use mosaic_archive.Struct.RoundTrip.{
  Fits, pack_total, unpack-sized, unpack_wrong_size, pack-unpack_values, unpack_values-Fits,
}

-- A test, a validation and a return: it returned what it was given, past both.
pub checked→ {ℓ} :
    {H : Type ℓ} (b : Bool) (e : Error) (check : Result (Unit {0})) (g h : H)
    → (raise_if (not b) e >> (check >> ok g)) ≡ ok h
    → (b ≡ true) × (check ≡ ok tt) × (g ≡ h)
checked→ false e check g h eq = cc
checked→ true e (err _) g h eq = cc
checked→ true e (ok tt) g h eq = (refl, refl, cc)

-- `IsValid` says which headers are accepted, and `to_values` which values a header is packed from.
module _ {Header : Type 0} (f : Format) (to_values : Header → Values f) (IsValid : Header → Type 0)
    (accept : Values f → Result Header)
    (accept_iff : (v : Values f) (h : Header)
      → (accept v ≡ ok h) ↔ ((v ≡ to_values h) × IsValid h)) where
  abbrev pub parse_with : Bytes → Result Header
  parse_with buf = do
    raise_if (not (length buf == size f)) archive_format
    values ← unpack f buf
    accept values

  parse_with-sized :
      (buf : Bytes) → length buf ≡ size f → parse_with buf ≡ accept (unpack_values f buf)
  parse_with-sized buf h = rw (h, ==_refl, unpack-sized f buf h)

  pub parse_with-pack :
      (h : Header)
      → IsValid h
      → Fits f (to_values h)
      → (buf : Bytes) × (pack f (to_values h) ≡ ok buf)
        × (length buf ≡ size f)
        × (parse_with buf ≡ ok h)
  parse_with-pack h valid fits =
      let p = pack_total f (to_values h) fits in
      (
        p.bytes,
        p.packs,
        p.sized,
        rw (parse_with-sized p.bytes p.sized)
            ((accept_iff (unpack_values f p.bytes) h).1 (p.reads, valid)),
      )

  pub pack-parse_with :
      (buf : Bytes) (h : Header)
      → All IsByte buf
      → parse_with buf ≡ ok h
      → IsValid h × Fits f (to_values h) × (pack f (to_values h) ≡ ok buf)
  pack-parse_with buf h bytes parsed =
      let (values, unpacked, accepted) =
        >>=-eq-ok (unpack f buf) accept
          (raise_if-eq-ok (not (length buf == size f)) archive_format (unpack f buf >>= accept)
            parsed).1 in
      let sized = unpack_wrong_size f buf unpacked in
      let (same, valid) =
        (accept_iff (unpack_values f buf) h).0 (sym (parse_with-sized buf sized) ∙ parsed) in
      (
        valid,
        rw (← same) (unpack_values-Fits f buf bytes sized),
        rw (← same) (pack-unpack_values f buf bytes sized),
      )

  pub parse_with_iff :
      (buf : Bytes) (h : Header)
      → All IsByte buf
      → (parse_with buf ≡ ok h)
        ↔ (IsValid h × Fits f (to_values h) × (pack f (to_values h) ≡ ok buf))
  parse_with_iff buf h bytes = (pack-parse_with buf h bytes, back)
    where
      back :
          IsValid h × Fits f (to_values h) × (pack f (to_values h) ≡ ok buf) → parse_with buf ≡ ok h
      back (valid, fits, packed) =
          let (written, written_packed, _, parsed) = parse_with-pack h valid fits in
          let same : ok buf ≡ ok written = sym packed ∙ written_packed in rw (ok-inj same) parsed
