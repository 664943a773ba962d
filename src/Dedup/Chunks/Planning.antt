-- ===== src/Dedup/Chunks/Planning.antt =====
-- The planned table of chunks: what the dictionary holds while it grows, and the table in the end.
use mosaic_archive.Base.{
  ℕ, ◌≤◌, ◌≡◌, refl, ap, sym, ◌∙◌, inl, inr, List, [], ◌∷◌, ◌++◌, append-nil, append_assoc, map,
  Bytes, length, get_elem?, get_elem?-append, get_elem?-length, ◌&&◌, ◌==◌, bytes_eq, none, some,
  All, All-append, All-mono, Bool-cases, Option-cases, ok, arith,
}
use mosaic_archive.Dedup.Chunks.{
  ChunkRecord, Canonical, Plan, lookup, plan_chunk, plan_chunks, count_unique, check_records,
}
use mosaic_archive.Dedup.Chunks.Table.{IsTable, IsRecord, check_records_iff}
use mosaic_archive.Dedup.Chunks.Lookup.{
  lookup-hit, lookup-miss, key_eq, key_refl, set_default-found, set_default-new, empty_lookup,
}

-- What `canonical` holds is the index of a record of its key that is its own source.
abbrev Points : List ChunkRecord → Bytes → ℕ → ℕ → Type 0
Points chunks d n i =
    (c : ChunkRecord) × (get_elem? chunks i ≡ some c)
    × (c.source_index ≡ i)
    × (c.digest ≡ d)
    × (c.size ≡ n)

record IsPlan (max_chunk_size : ℕ) (s : Plan) : Type 0 where
  points : (d : Bytes) (n i : ℕ) → lookup d n s.canonical ≡ some i → Points s.chunks d n i
  known : All (λ r. lookup r.digest r.size s.canonical ≡ some r.source_index) s.chunks
  table : IsTable max_chunk_size [] s.chunks

IsTable-snoc :
    (max_chunk_size : ℕ) (front xs : List ChunkRecord) (r : ChunkRecord)
    → IsTable max_chunk_size front xs
    → IsRecord max_chunk_size (front ++ xs) r
    → IsTable max_chunk_size front (xs ++ (r ∷ []))
IsTable-snoc m front [] r t h = (rw (append-nil front) at h, tt)
IsTable-snoc m front (x ∷ xs) r t h =
    (t.0, IsTable-snoc m (front ++ (x ∷ [])) xs r t.1 (rw (append_assoc front (x ∷ []) xs) h))

Points-more :
    (chunks : List ChunkRecord) (r : ChunkRecord) (d : Bytes) (n i : ℕ)
    → Points chunks d n i
    → Points (chunks ++ (r ∷ [])) d n i
Points-more chunks r d n i (c, found, source, digest, size) =
    (c, get_elem?-append chunks (r ∷ []) i found, source, digest, size)

-- A key that was met: the record refers to its first occurrence.
plan_again :
    (max_chunk_size : ℕ) (s : Plan) (d : Bytes) (n i : ℕ)
    → IsPlan max_chunk_size s
    → 1 ≤ n
    → n ≤ max_chunk_size
    → lookup d n s.canonical ≡ some i
    → IsPlan max_chunk_size (record {
      canonical = s.canonical;
      chunks = s.chunks ++ (record { digest = d; size = n; source_index = i } ∷ []);
    })
plan_again m s d n i p low high found =
    let r : ChunkRecord = record { digest = d; size = n; source_index = i } in
    let (c, at_i, own_source, digest, size) = p.points d n i found in
    record {
      points = λ d' n' i' h. Points-more s.chunks r d' n' i' (p.points d' n' i' h);
      known =
          All-append (λ r. lookup r.digest r.size s.canonical ≡ some r.source_index) s.chunks
            (r ∷ []) p.known (found, tt);
      table =
          IsTable-snoc m [] s.chunks r p.table (low, high, inr (c, at_i, own_source, digest, size));
    }

-- A key that is new: the record is its own source.
plan_new :
    (max_chunk_size : ℕ) (s : Plan) (d : Bytes) (n : ℕ)
    → IsPlan max_chunk_size s
    → 1 ≤ n
    → n ≤ max_chunk_size
    → lookup d n s.canonical ≡ none
    → IsPlan max_chunk_size (record {
      canonical = ((d, n), length s.chunks) ∷ s.canonical;
      chunks = s.chunks ++ (record { digest = d; size = n; source_index = length s.chunks } ∷ []);
    })
plan_new m s d n p low high missing =
    let r : ChunkRecord = record { digest = d; size = n; source_index = length s.chunks } in
    let canonical : Canonical = ((d, n), length s.chunks) ∷ s.canonical in
    record {
      points = λ d' n' i' h. elim (Bool-cases (bytes_eq d' d && n' == n)) [
        | inl hit ↦
            let (same_d, same_n) = key_eq d' d n' n hit in
            let place : length s.chunks ≡ i' =
              some_inj (sym (lookup-hit d' d n' n (length s.chunks) s.canonical hit) ∙ h) in
            (
              r,
              ap (λ k. get_elem? (s.chunks ++ (r ∷ [])) k) (sym place)
                  ∙ get_elem?-length s.chunks r,
              place,
              sym same_d,
              sym same_n,
            )
        | inr miss ↦
            Points-more s.chunks r d' n' i' (
              p.points d' n' i'
                (sym (lookup-miss d' d n' n (length s.chunks) s.canonical miss) ∙ h))
      ];
      known =
          All-append (λ r. lookup r.digest r.size canonical ≡ some r.source_index) s.chunks (r ∷ [])
            (All-mono (λ r. lookup r.digest r.size s.canonical ≡ some r.source_index)
              (λ r. lookup r.digest r.size canonical ≡ some r.source_index) s.chunks
              (λ q h. elim (Bool-cases (bytes_eq q.digest d && q.size == n)) [
                | inl hit ↦
                    let (same_d, same_n) = key_eq q.digest d q.size n hit in
                    absurd (
                      some_ne_none (
                        sym h
                        ∙ ap (λ k. lookup k q.size s.canonical) same_d
                        ∙ ap (λ k. lookup d k s.canonical) same_n
                        ∙ missing))
                | inr miss ↦ lookup-miss q.digest d q.size n (length s.chunks) s.canonical miss ∙ h
              ])
              p.known)
            (lookup-hit d d n n (length s.chunks) s.canonical (key_refl d n), tt);
      table = IsTable-snoc m [] s.chunks r p.table (low, high, inl refl);
    }
  where
    some_inj : {i j : ℕ} → some i ≡ some j → i ≡ j
    some_inj h = cc

    some_ne_none : {i : ℕ} → ¬ (some i ≡ none)
    some_ne_none h = cc

-- The key of a chunk, and that of a record.
abbrev pub chunk_key : (Bytes → Bytes) → Bytes → Bytes × ℕ
chunk_key sha256 c = (sha256 c, length c)

abbrev pub record_key : ChunkRecord → Bytes × ℕ
record_key r = (r.digest, r.size)

abbrev pub no_chunks : Plan
no_chunks = record { canonical = []; chunks = [] }

map-append :
    (xs ys : List ChunkRecord) → map record_key (xs ++ ys) ≡ map record_key xs ++ map record_key ys
map-append [] ys = refl
map-append (x ∷ xs) ys = ap (λ r. record_key x ∷ r) (map-append xs ys)

module _ (sha256 : Bytes → Bytes) (max_chunk_size : ℕ) where
  plan_chunk-IsPlan :
      (s : Plan) (chunk : Bytes)
      → IsPlan max_chunk_size s
      → 1 ≤ length chunk
      → length chunk ≤ max_chunk_size
      → IsPlan max_chunk_size (plan_chunk sha256 s chunk)
  plan_chunk-IsPlan s chunk p low high =
      elim (Option-cases (lookup (sha256 chunk) (length chunk) s.canonical)) [
        | inl missing ↦
            rw (set_default-new (sha256 chunk) (length chunk) (length s.chunks) s.canonical missing)
              (plan_new max_chunk_size s (sha256 chunk) (length chunk) p low high missing)
        | inr (i, found) ↦
            rw
              (set_default-found (sha256 chunk) (length chunk) (length s.chunks) i s.canonical
                found)
              (plan_again max_chunk_size s (sha256 chunk) (length chunk) i p low high found)
      ]

  plan_chunks-IsPlan :
      (s : Plan) (chunks : List Bytes)
      → IsPlan max_chunk_size s
      → All (λ c. (1 ≤ length c) × (length c ≤ max_chunk_size)) chunks
      → IsPlan max_chunk_size (plan_chunks sha256 s chunks)
  unfolding plan_chunks
  plan_chunks-IsPlan s [] p h = p
  plan_chunks-IsPlan s (c ∷ rest) p h =
      plan_chunks-IsPlan (plan_chunk sha256 s c) rest (plan_chunk-IsPlan s c p h.0.0 h.0.1) h.1

  plan_chunks-keys :
      (s : Plan) (chunks : List Bytes)
      → map record_key (plan_chunks sha256 s chunks).chunks
        ≡ map record_key s.chunks ++ map (chunk_key sha256) chunks
  unfolding plan_chunks
  plan_chunks-keys s [] = sym (append-nil (map record_key s.chunks))
  plan_chunks-keys s (c ∷ rest) =
      plan_chunks-keys (plan_chunk sha256 s c) rest
      ∙ ap (λ ks. ks ++ map (chunk_key sha256) rest) (map-append s.chunks _)
      ∙ append_assoc (map record_key s.chunks) (chunk_key sha256 c ∷ [])
          (map (chunk_key sha256) rest)

  same_source :
      (canonical : Canonical) (q r : ChunkRecord)
      → lookup q.digest q.size canonical ≡ some q.source_index
      → lookup r.digest r.size canonical ≡ some r.source_index
      → q.digest ≡ r.digest
      → q.size ≡ r.size
      → q.source_index ≡ r.source_index
  same_source canonical q r h k d n =
      let e : some q.source_index ≡ some r.source_index =
        sym h
        ∙ ap (λ x. lookup x q.size canonical) d
        ∙ ap (λ x. lookup r.digest x canonical) n
        ∙ k in
      cc

  -- For chunks of sizes in range, the plan has a record with the digest and the size of every
  -- chunk, in order; the reader's tests accept it and count its unique chunks as the writer does;
  -- and records with equal digests and sizes have the same source.
  pub plan_chunks_lem :
      (chunks : List Bytes)
      → All (λ c. (1 ≤ length c) × (length c ≤ max_chunk_size)) chunks
      → (map record_key (plan_chunks sha256 no_chunks chunks).chunks
          ≡ map (chunk_key sha256) chunks)
        × (check_records max_chunk_size [] 0 (plan_chunks sha256 no_chunks chunks).chunks
            ≡ ok (count_unique 0 (plan_chunks sha256 no_chunks chunks).chunks))
        × All
            (λ q.
              All
                (λ r. q.digest ≡ r.digest → q.size ≡ r.size → q.source_index ≡ r.source_index)
                (plan_chunks sha256 no_chunks chunks).chunks)
            (plan_chunks sha256 no_chunks chunks).chunks
  plan_chunks_lem chunks sizes =
      let s = plan_chunks sha256 no_chunks chunks in
      let empty : IsPlan max_chunk_size no_chunks = record {
        points = λ d n i h. absurd (empty_lookup d n i h);
        known = tt;
        table = tt;
      } in
      let p = plan_chunks-IsPlan no_chunks chunks empty sizes in
      let indexed : ChunkRecord → Type 0 =
        λ r. lookup r.digest r.size s.canonical ≡ some r.source_index in
      let agree : ChunkRecord → ChunkRecord → Type 0 =
        λ q r. q.digest ≡ r.digest → q.size ≡ r.size → q.source_index ≡ r.source_index in
      (
        plan_chunks-keys no_chunks chunks,
        (check_records_iff max_chunk_size [] 0 s.chunks (count_unique 0 s.chunks)).1
            (p.table, omega arith),
        All-mono indexed (λ q. All (agree q) s.chunks) s.chunks
            (λ q h.
              All-mono indexed (agree q) s.chunks (λ r k. same_source s.canonical q r h k) p.known)
            p.known,
      )
