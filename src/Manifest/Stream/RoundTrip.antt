-- ===== src/Manifest/Stream/RoundTrip.antt =====
-- MSC2: a valid manifest is serialized, and parsed back.
use mosaic_archive.Base.{
  ℕ, ◌+◌, ◌-◌, ◌/◌, ◌≤◌, ◌≡◌, ◌⊎◌, refl, sym, ap, ◌∙◌, List, [], ◌∷◌, ◌++◌, append-nil,
  append_assoc, Bytes, length, false, inl, inr, ==_refl, le→ltb_false, bytes_eq_refl, ok, arith,
}
use mosaic_archive.Struct.{size}
use mosaic_archive.Struct.RoundTrip.{pack_total, unpack-sized}
use mosaic_archive.Text.{Text, Unicode, UnicodeLaws, is_member, has}
use mosaic_archive.Paths.{validate_relative_path}
use mosaic_archive.Format.StreamHeader.{Msc2Header}
use mosaic_archive.Dedup.Frames.RoundTrip.{read_exact-append}
use mosaic_archive.Manifest.{
  Entry, kind_file, kind_folder, entry_file, entry_directory, entry_fixed, zero_hash, check_shape,
  write_entries,
}
use mosaic_archive.Manifest.Entries.{stored, IsStorable, Written, written, known_kind}
use mosaic_archive.Manifest.Stream.{
  manifest_magic, manifest_prefix, max_entry_count, Manifest, check_range, serialize_manifest,
  parse_entry, parse_entries, parse_manifest,
}

-- A directory has no bytes and no frames; a file has the frames from the next one on that its size
-- takes.
abbrev pub HasRange : ℕ → ℕ → Entry → ℕ → Type 0
HasRange chunk_size next e next' =
    ((e.entry_type ≡ entry_directory)
      × (e.size ≡ 0)
      × (e.first ≡ 0)
      × (e.count ≡ 0)
      × (e.digest ≡ zero_hash)
      × (next' ≡ next))
    ⊎ ((e.entry_type ≡ entry_file)
        × (e.count ≡ (e.size + chunk_size - 1) / chunk_size)
        × (e.first ≡ next)
        × (next' ≡ next + e.count))

check_range_lem :
    (chunk_size next next' : ℕ) (e : Entry)
    → HasRange chunk_size next e next'
    → check_range chunk_size next e ≡ ok next'
unfolding check_range
check_range_lem chunk_size next next' e (inl (t, s, f, c, d, n)) =
    rw (t, s, f, c, d, n, bytes_eq_refl)
check_range_lem chunk_size next next' e (inr (t, c, f, n)) = rw (n, t, f, c, ==_refl, ==_refl)

module _ (unicode : Unicode) (laws : UnicodeLaws unicode) where
  -- From the next frame on the entries have their ranges, and their paths differ, case folded, from
  -- each other and from those before.
  unfoldable pub AreValid : ℕ → List Text → ℕ → List Entry → ℕ → Type 0
  AreValid chunk_size seen next [] last = next ≡ last
  AreValid chunk_size seen next (e ∷ es) last =
      IsStorable unicode laws e
      × (is_member (unicode.casefold e.relative_path) seen ≡ false)
      × ((next' : ℕ) × HasRange chunk_size next e next'
          × AreValid chunk_size (unicode.casefold e.relative_path ∷ seen) next' es last)

  parse_entry_lem :
      (chunk_size next next' : ℕ) (seen : List Text) (e : Entry) (rest : Bytes)
      (w : Written unicode laws e)
      → IsStorable unicode laws e
      → is_member (unicode.casefold e.relative_path) seen ≡ false
      → HasRange chunk_size next e next'
      → parse_entry unicode chunk_size seen next (w.fixed ++ (w.path ++ rest))
        ≡ ok (e, (next', rest))
  unfolding parse_entry
  parse_entry_lem chunk_size next next' seen e rest w s fresh range =
      let fixed = read_exact-append w.fixed (w.path ++ rest) (size entry_fixed) (sym w.sized) in
      let mode = le→ltb_false e.mode 511 s.small_mode in
      rw (
        fixed,
        w.unpacks,
        s.known_type,
        w.path_reads rest,
        bytes_eq_refl e.relative_path,
        fresh,
        mode,
        check_range_lem chunk_size next next' e range,
      )

  record Serialized (chunk_size : ℕ) (seen : List Text) (next : ℕ) (es : List Entry) (last : ℕ)
      : Type 0 where
    bytes : Bytes
    writes : write_entries unicode es ≡ ok bytes
    parses :
        (tail : Bytes)
        → parse_entries unicode (length es) chunk_size seen next (bytes ++ tail)
          ≡ ok (es, (last, tail))

  entries_lem :
      (chunk_size : ℕ) (seen : List Text) (next : ℕ) (es : List Entry) (last : ℕ)
      → AreValid chunk_size seen next es last
      → Serialized chunk_size seen next es last
  unfolding write_entries parse_entries AreValid
  entries_lem chunk_size seen next [] last v = record {
    bytes = [];
    writes = refl;
    parses = λ tail. ap (λ n. ok ([], (n, tail))) v;
  }
  entries_lem chunk_size seen next (e ∷ es) last (s, fresh, (next', range, v)) =
      let w = written unicode laws e s in
      let r = entries_lem chunk_size (unicode.casefold e.relative_path ∷ seen) next' es last v in
      record {
        bytes = (w.fixed ++ w.path) ++ r.bytes;
        writes = rw (w.writes, r.writes);
        parses = λ tail. rw (
          append_assoc (w.fixed ++ w.path) r.bytes tail,
          append_assoc w.fixed w.path (r.bytes ++ tail),
          parse_entry_lem chunk_size next next' seen e (r.bytes ++ tail) w s fresh range,
          r.parses tail,
        );
      }

  -- The manifests that the format admits under a public header.
  pub record IsValid (m : Manifest) (header : Msc2Header) : Type 0 where
    pub kind_is_known : (m.kind ≡ kind_file) ⊎ (m.kind ≡ kind_folder)
    pub valid_root : validate_relative_path unicode m.root_name ≡ ok m.root_name
    pub basename : has 47 m.root_name ≡ false
    pub few_entries : length m.entries ≤ max_entry_count
    pub valid_entries : AreValid header.chunk_size [] 1 m.entries header.frame_count
    pub shape : check_shape m.kind m.root_name m.entries ≡ ok tt

  -- A valid manifest is serialized, and parsing its bytes under the header gives it back: the
  -- prefix, the paths with their validation, the fixed fields, the ranges of frames and the tests
  -- on the shape of the archive.
  pub parse-serialize_manifest :
      (m : Manifest) (header : Msc2Header)
      → IsValid m header
      → (buf : Bytes) × (serialize_manifest unicode m ≡ ok buf)
        × (parse_manifest unicode buf header ≡ ok m)
  unfolding serialize_manifest parse_manifest
  parse-serialize_manifest m header v =
      let root = stored unicode laws m.root_name v.valid_root in
      let (k, small) = known_kind m.kind v.kind_is_known in
      let prefix =
        pack_total manifest_prefix
          (manifest_magic, (m.kind, (length root.bytes, (length m.entries, tt))))
          (refl, (small, (omega (arith, root.short), (omega (arith, v.few_entries), tt)))) in
      let es = entries_lem header.chunk_size [] 1 m.entries header.frame_count v.valid_entries in
      let front =
        read_exact-append prefix.bytes (root.bytes ++ es.bytes) (size manifest_prefix)
          (sym prefix.sized) in
      let unpacks = unpack-sized manifest_prefix prefix.bytes prefix.sized ∙ ap ok prefix.reads in
      let few = le→ltb_false (length m.entries) max_entry_count v.few_entries in
      (
        prefix.bytes ++ (root.bytes ++ es.bytes),
        rw (root.encodes, prefix.packs, es.writes),
        rw (
          front,
          unpacks,
          k,
          bytes_eq_refl manifest_magic,
          few,
          root.reads es.bytes,
          v.basename,
          bytes_eq_refl m.root_name,
          rw append-nil at (es.parses []),
          ==_refl,
          v.shape,
        ),
      )
