-- ===== src/Manifest/Dedup/RoundTrip.antt =====
-- MSC3: a valid manifest is serialized, and parsed back.
use mosaic_archive.Base.{
  ℕ, ◌+◌, ◌≤◌, ◌≡◌, ◌≢◌, ◌⊎◌, refl, sym, ap, ◌∙◌, List, [], ◌∷◌, ◌++◌, append-nil, append_assoc,
  Bytes, All, length, false, inl, inr, ==_refl, ne→==_false, le→ltb_false, bytes_eq_refl, ok, arith,
  take, drop,
}
use mosaic_archive.Struct.{size}
use mosaic_archive.Struct.RoundTrip.{pack_total, unpack-sized}
use mosaic_archive.Text.{Text, Unicode, UnicodeLaws, is_member, has}
use mosaic_archive.Paths.{validate_relative_path}
use mosaic_archive.Format.DedupHeader.{Msc3Header}
use mosaic_archive.Dedup.Frames.RoundTrip.{read_exact-append}
use mosaic_archive.Dedup.Chunks.{ChunkRecord, check_records}
use mosaic_archive.Manifest.{
  Entry, kind_file, kind_folder, entry_file, entry_directory, entry_fixed, zero_hash, check_shape,
  write_entries,
}
use mosaic_archive.Manifest.Entries.{stored, IsStorable, Written, written, known_kind}
use mosaic_archive.Manifest.Dedup.{
  manifest_magic, manifest_prefix, max_chunk_records, DedupManifest, check_range, total_size,
  check_sums, serialize_dedup_manifest, parse_entry, parse_entries, parse_dedup_manifest,
}
use mosaic_archive.Manifest.Dedup.Records.{FitsRecord, written_chunks}

-- A directory has no bytes and no chunks; a file has chunks, from the next one on, if it has bytes.
abbrev pub HasRange : ℕ → Entry → ℕ → Type 0
HasRange next e next' =
    ((e.entry_type ≡ entry_directory)
      × (e.size ≡ 0)
      × (e.first ≡ 0)
      × (e.count ≡ 0)
      × (e.digest ≡ zero_hash)
      × (next' ≡ next))
    ⊎ ((e.entry_type ≡ entry_file)
        × (((e.size ≡ 0) × (e.count ≡ 0)) ⊎ ((e.size ≢ 0) × (e.count ≢ 0)))
        × (e.first ≡ next)
        × (next' ≡ next + e.count))

check_range_lem :
    (next next' : ℕ) (e : Entry) → HasRange next e next' → check_range next e ≡ ok next'
unfolding check_range
check_range_lem next next' e (inl (t, s, f, c, d, n)) = rw (t, s, f, c, d, n, bytes_eq_refl)
check_range_lem next next' e (inr (t, inl (s, c), f, n)) = rw (n, t, s, c, f, ==_refl)
check_range_lem next next' e (inr (t, inr (s, c), f, n)) =
    rw (n, t, ne→==_false e.size 0 s, ne→==_false e.count 0 c, f, ==_refl)

-- The sizes of the chunks of every file add up to its size.
unfoldable pub HaveSums : List ChunkRecord → List Entry → Type 0
HaveSums chunks [] = Unit
HaveSums chunks (e ∷ es) =
    ((e.entry_type ≡ entry_directory)
      ⊎ ((e.entry_type ≡ entry_file) × (total_size (take e.count (drop e.first chunks)) ≡ e.size)))
    × HaveSums chunks es

check_sums_lem :
    (chunks : List ChunkRecord) (es : List Entry)
    → HaveSums chunks es
    → check_sums chunks es ≡ ok tt
unfolding check_sums HaveSums
check_sums_lem chunks [] h = refl
check_sums_lem chunks (e ∷ es) (inl t, h) = rw t (check_sums_lem chunks es h)
check_sums_lem chunks (e ∷ es) (inr (t, s), h) = rw (t, s, ==_refl) (check_sums_lem chunks es h)

module _ (unicode : Unicode) (laws : UnicodeLaws unicode) where
  -- From the next chunk on the entries have their ranges, and their paths differ, case folded, from
  -- each other and from those before.
  unfoldable pub AreValid : List Text → ℕ → List Entry → ℕ → Type 0
  AreValid seen next [] last = next ≡ last
  AreValid seen next (e ∷ es) last =
      IsStorable unicode laws e
      × (is_member (unicode.casefold e.relative_path) seen ≡ false)
      × ((next' : ℕ) × HasRange next e next'
          × AreValid (unicode.casefold e.relative_path ∷ seen) next' es last)

  parse_entry_lem :
      (next next' : ℕ) (seen : List Text) (e : Entry) (rest : Bytes) (w : Written unicode laws e)
      → IsStorable unicode laws e
      → is_member (unicode.casefold e.relative_path) seen ≡ false
      → HasRange next e next'
      → parse_entry unicode seen next (w.fixed ++ (w.path ++ rest)) ≡ ok (e, (next', rest))
  unfolding parse_entry
  parse_entry_lem next next' seen e rest w s fresh range =
      let fixed = read_exact-append w.fixed (w.path ++ rest) (size entry_fixed) (sym w.sized) in
      let mode = le→ltb_false e.mode 511 s.small_mode in
      rw (
        fixed,
        w.unpacks,
        s.known_type,
        mode,
        w.path_reads rest,
        bytes_eq_refl e.relative_path,
        fresh,
        check_range_lem next next' e range,
      )

  record Serialized (seen : List Text) (next : ℕ) (es : List Entry) (last : ℕ) : Type 0 where
    bytes : Bytes
    writes : write_entries unicode es ≡ ok bytes
    parses :
        (tail : Bytes)
        → parse_entries unicode (length es) seen next (bytes ++ tail) ≡ ok (es, (last, tail))

  entries_lem :
      (seen : List Text) (next : ℕ) (es : List Entry) (last : ℕ)
      → AreValid seen next es last
      → Serialized seen next es last
  unfolding write_entries parse_entries AreValid
  entries_lem seen next [] last v = record {
    bytes = [];
    writes = refl;
    parses = λ tail. ap (λ n. ok ([], (n, tail))) v;
  }
  entries_lem seen next (e ∷ es) last (s, fresh, (next', range, v)) =
      let w = written unicode laws e s in
      let r = entries_lem (unicode.casefold e.relative_path ∷ seen) next' es last v in
      record {
        bytes = (w.fixed ++ w.path) ++ r.bytes;
        writes = rw (w.writes, r.writes);
        parses = λ tail. rw (
          append_assoc (w.fixed ++ w.path) r.bytes tail,
          append_assoc w.fixed w.path (r.bytes ++ tail),
          parse_entry_lem next next' seen e (r.bytes ++ tail) w s fresh range,
          r.parses tail,
        );
      }

  -- The manifests that the format admits under a public header.
  pub record IsValid (m : DedupManifest) (header : Msc3Header) : Type 0 where
    pub kind_is_known : (m.kind ≡ kind_file) ⊎ (m.kind ≡ kind_folder)
    pub valid_root : validate_relative_path unicode m.root_name ≡ ok m.root_name
    pub basename : has 47 m.root_name ≡ false
    pub few_entries : length m.entries ≤ 1000000
    pub few_chunks : length m.chunks ≤ max_chunk_records
    pub valid_entries : AreValid [] 0 m.entries (length m.chunks)
    pub chunks_fit : All FitsRecord m.chunks
    pub unique_count : ℕ
    pub valid_chunks : check_records header.max_chunk_size [] 0 m.chunks ≡ ok unique_count
    pub one_frame_each : unique_count + 1 ≡ header.frame_count
    pub sums : HaveSums m.chunks m.entries
    pub shape : check_shape m.kind m.root_name m.entries ≡ ok tt

  -- A valid manifest is serialized, and parsing its bytes under the header gives it back: the
  -- prefix, the paths with their validation, the ranges of chunks, the table of chunks with its
  -- references and the sums of their sizes.
  pub parse-serialize_dedup_manifest :
      (m : DedupManifest) (header : Msc3Header)
      → IsValid m header
      → (buf : Bytes) × (serialize_dedup_manifest unicode m ≡ ok buf)
        × (parse_dedup_manifest unicode buf header ≡ ok m)
  unfolding serialize_dedup_manifest parse_dedup_manifest
  parse-serialize_dedup_manifest m header v =
      let root = stored unicode laws m.root_name v.valid_root in
      let (k, small) = known_kind m.kind v.kind_is_known in
      let prefix =
        pack_total manifest_prefix
          (manifest_magic, (m.kind, (length root.bytes, (length m.entries, (length m.chunks, tt)))))
          (
            refl,
            (
              small,
              (
                omega (arith, root.short),
                (omega (arith, v.few_entries), (omega (arith, v.few_chunks), tt)),
              ),
            ),
          ) in
      let es = entries_lem [] 0 m.entries (length m.chunks) v.valid_entries in
      let cs =
        written_chunks header.max_chunk_size [] 0 m.chunks v.unique_count v.chunks_fit
          v.valid_chunks in
      let front =
        read_exact-append prefix.bytes (root.bytes ++ (es.bytes ++ cs.bytes)) (size manifest_prefix)
          (sym prefix.sized) in
      let unpacks = unpack-sized manifest_prefix prefix.bytes prefix.sized ∙ ap ok prefix.reads in
      let few = le→ltb_false (length m.entries) 1000000 v.few_entries in
      let few_chunks = le→ltb_false (length m.chunks) max_chunk_records v.few_chunks in
      (
        prefix.bytes ++ (root.bytes ++ (es.bytes ++ cs.bytes)),
        rw (root.encodes, prefix.packs, es.writes, cs.writes),
        rw (
          front,
          unpacks,
          k,
          bytes_eq_refl manifest_magic,
          few,
          few_chunks,
          root.reads (es.bytes ++ cs.bytes),
          v.basename,
          bytes_eq_refl m.root_name,
          es.parses cs.bytes,
          ==_refl,
          rw append-nil at (cs.parses []),
          v.one_frame_each,
          ==_refl,
          check_sums_lem m.chunks m.entries v.sums,
          v.shape,
        ),
      )
