-- ===== src/Modes/LzRans/RoundTrip.antt =====
-- LZ_RANS: what the encoder writes decodes to the block.
use mosaic_archive.Base.{
  ℕ, ◌+◌, ◌*◌, ◌-◌, ◌^◌, ◌≤◌, ◌<◌, ◌≡◌, refl, sym, ◌∙◌, List, [], ◌∷◌, ◌++◌, append-nil, Bytes,
  IsByte, All, length, length-append, take-append, drop-append, arith, ◌==◌, ==_refl, le→ltb_false,
  bytes_eq_refl, ok, true,
}
use mosaic_archive.Struct.{size, unpack_values, Values}
use mosaic_archive.Struct.RoundTrip.{Packed, pack_total, unpack_values-append, unpack_from-ok}
use mosaic_archive.Modes.ByteRans
use mosaic_archive.Modes.ByteRans.RoundTrip.{Encoded, encode_total}
use mosaic_archive.Modes.LzRans.{
  header, magic, encode, decode_stream, count, decode_streams, decode_body, decode,
}
use mosaic_archive.Modes.LzRans.Varint.{decode_varints, decode_varints_lem}
use mosaic_archive.Modes.LzRans.Tokens.{
  Token, literal_sizes, match_sizes, match_distances, tags, all_literals, varints, Plays,
  decode_tokens-Plays,
}
use mosaic_archive.Modes.LzRans.Sizes.{
  count_literals, count_matches, count_distances, count_all, Sized, Plays-Sized, Plays-IsByte,
  Plays-IsWord, IsWord, tags-IsByte, varints-IsByte,
}
use mosaic_archive.Modes.LzRans.Tokenize.{tokenize_lem}

varints_read :
    (values : List ℕ) (n : ℕ)
    → n ≡ length values
    → All IsWord values
    → decode_varints (varints values) n ≡ ok values
varints_read values n e h = rw e (decode_varints_lem values h)

decode_streams_lem :
    (n : ℕ) (ts : List Token) (block : Bytes)
    → n ≡ length block
    → length block < 2 ^ 32
    → Plays n ts [] block
    → decode_streams n
        (tags ts)
        (all_literals ts)
        (varints (literal_sizes ts))
        (varints (match_sizes ts))
        (varints (match_distances ts))
      ≡ ok block
unfolding decode_streams
decode_streams_lem n ts block e small p =
    let (w0, w1, w2) = Plays-IsWord n ts [] block (omega arith) p in
    let c0 = count_literals ts in
    let c1 = count_matches ts in
    let v0 = varints_read (literal_sizes ts) (count 0 (tags ts)) c0 w0 in
    let v1 = varints_read (match_sizes ts) (count 1 (tags ts)) c1 w1 in
    let v2 =
      varints_read (match_distances ts) (count 1 (tags ts)) (c1 ∙ sym (count_distances ts)) w2 in
    let all : count 0 (tags ts) + count 1 (tags ts) ≡ length (tags ts) =
      omega (arith, c0, c1, count_all ts) in
    let whole : (length block == n) ≡ true = rw e (==_refl (length block)) in
    rw (all, ==_refl, v0, v1, v2, decode_tokens-Plays n ts [] block p, whole)

decode_stream_lem :
    (block p rest : Bytes)
    → ByteRans.decode p (length block) ≡ ok block
    → decode_stream (p ++ rest) (length block) (length p) ≡ ok (block, rest)
unfolding decode_stream
decode_stream_lem block p rest h =
    rw (take-append (length p) p rest refl, h, drop-append (length p) p rest refl)

within : (n m : ℕ) → m ≤ n → n ≤ 2 ^ 30 → m < 2 ^ 32
within n m a b = omega arith

payload_within : (n m k : ℕ) → m ≤ n → n ≤ 2 ^ 30 → k ≤ 774 + 2 * m → k < 2 ^ 32
payload_within n m k a b c = omega arith

-- Five blocks and their payloads, behind a header that describes them.
module _ (n : ℕ) (b0 b1 b2 b3 b4 p0 p1 p2 p3 p4 : Bytes) where
  abbrev described : Values header
  described = (
    magic,
    (
      length b0,
      (
        length p0,
        (
          length b1,
          (
            length p1,
            (length b2, (length p2, (length b3, (length p3, (length b4, (length p4, tt)))))),
          ),
        ),
      ),
    ),
  )

  abbrev payloads : Bytes
  payloads = p0 ++ (p1 ++ (p2 ++ (p3 ++ p4)))

  length-payloads : length p0 + length p1 + length p2 + length p3 + length p4 ≡ length payloads
  length-payloads = omega (
    arith,
    length-append p0 (p1 ++ (p2 ++ (p3 ++ p4))),
    length-append p1 (p2 ++ (p3 ++ p4)),
    length-append p2 (p3 ++ p4),
    length-append p3 p4,
  )

  header_packs :
      n ≤ 2 ^ 30
      → (length b0 ≤ n) × (length b1 ≤ n) × (length b2 ≤ n) × (length b3 ≤ n) × (length b4 ≤ n)
      → Encoded b0 p0
      → Encoded b1 p1
      → Encoded b2 p2
      → Encoded b3 p3
      → Encoded b4 p4
      → Packed header described
  header_packs small (f0, f1, f2, f3, f4) e0 e1 e2 e3 e4 = pack_total header described (
      (
        refl,
        (
          within n (length b0) f0 small,
          (
            payload_within n (length b0) (length p0) f0 small e0.short,
            (
              within n (length b1) f1 small,
              (
                payload_within n (length b1) (length p1) f1 small e1.short,
                (
                  within n (length b2) f2 small,
                  (
                    payload_within n (length b2) (length p2) f2 small e2.short,
                    (
                      within n (length b3) f3 small,
                      (
                        payload_within n (length b3) (length p3) f3 small e3.short,
                        (
                          within n (length b4) f4 small,
                          (payload_within n (length b4) (length p4) f4 small e4.short, tt),
                        ),
                      ),
                    ),
                  ),
                ),
              ),
            ),
          ),
        ),
      ))

  body_reads :
      (front : Packed header described)
      → (length b0 ≤ n) × (length b1 ≤ n) × (length b2 ≤ n) × (length b3 ≤ n) × (length b4 ≤ n)
      → Encoded b0 p0
      → Encoded b1 p1
      → Encoded b2 p2
      → Encoded b3 p3
      → Encoded b4 p4
      → decode_body (front.bytes ++ payloads) n ≡ decode_streams n b0 b1 b2 b3 b4
  unfolding decode_body
  body_reads front (f0, f1, f2, f3, f4) e0 e1 e2 e3 e4 =
      let total = length-append front.bytes payloads in
      let long =
        le→ltb_false (size header) (length (front.bytes ++ payloads))
          (omega (arith, total, front.sized)) in
      let values : unpack_values header (front.bytes ++ payloads) ≡ described =
        unpack_values-append header front.bytes payloads (omega (arith, front.sized))
        ∙ front.reads in
      let sum : length p0 + length p1 + length p2 + length p3 + length p4
          ≡ length (front.bytes ++ payloads) - size header =
        omega (arith, total, front.sized, length-payloads) in
      let rest = drop-append (size header) front.bytes payloads (sym front.sized) in
      rw (
        long,
        unpack_from-ok header (front.bytes ++ payloads) (omega (arith, total, front.sized)),
        values,
        le→ltb_false (length b0) n f0,
        le→ltb_false (length b1) n f1,
        le→ltb_false (length b2) n f2,
        le→ltb_false (length b3) n f3,
        le→ltb_false (length b4) n f4,
        sum,
        ==_refl,
        rest,
        decode_stream_lem b0 p0 _ e0.decodes,
        decode_stream_lem b1 p1 _ e1.decodes,
        decode_stream_lem b2 p2 _ e2.decodes,
        decode_stream_lem b3 p3 _ e3.decodes,
        bytes_eq_refl magic,
        rw append-nil at (decode_stream_lem b4 p4 [] e4.decodes),
      )

all_fit :
    (ts : List Token) (m n : ℕ)
    → Sized ts m
    → m ≤ n
    → (length (tags ts) ≤ n)
      × (length (all_literals ts) ≤ n)
      × (length (varints (literal_sizes ts)) ≤ n)
      × (length (varints (match_sizes ts)) ≤ n)
      × (length (varints (match_distances ts)) ≤ n)
all_fit ts m n s h = (
  omega (arith, s.tags_fit),
  omega (arith, s.literals_fit),
  omega (arith, s.literal_sizes_fit),
  omega (arith, s.match_sizes_fit),
  omega (arith, s.distances_fit),
)

-- A block of at most 2 ^ 30 bytes is encoded, and decoding the payload with the length of the block
-- as the expected size gives the block back: the match finder, the five streams, their coding by
-- BYTE_RANS and the header's checks included.
pub lz_rans_round_trip :
    (block : Bytes)
    → All IsByte block
    → length block ≤ 2 ^ 30
    → (payload : Bytes) × (encode block ≡ ok payload) × (decode payload (length block) ≡ ok block)
unfolding encode decode
lz_rans_round_trip [] h small = ([], refl, refl)
lz_rans_round_trip (b ∷ bs) h small =
    let block = b ∷ bs in
    let n = length block in
    let (ts, holds, plays) = tokenize_lem block in
    let (m, written, s) = Plays-Sized n ts [] block plays in
    let (_, bytes) = Plays-IsByte n ts [] block plays h in
    let (p0, e0) = encode_total (tags ts) (tags-IsByte ts) in
    let (p1, e1) = encode_total (all_literals ts) bytes in
    let (p2, e2) = encode_total (varints (literal_sizes ts)) (varints-IsByte (literal_sizes ts)) in
    let (p3, e3) = encode_total (varints (match_sizes ts)) (varints-IsByte (match_sizes ts)) in
    let (p4, e4) =
      encode_total (varints (match_distances ts)) (varints-IsByte (match_distances ts)) in
    let fits = all_fit ts m n s (omega (arith, written)) in
    let front =
      header_packs n (tags ts) (all_literals ts) (varints (literal_sizes ts))
        (varints (match_sizes ts)) (varints (match_distances ts)) p0 p1 p2 p3 p4 small fits e0 e1 e2
        e3 e4 in
    (
      front.bytes
          ++ payloads n (tags ts) (all_literals ts) (varints (literal_sizes ts))
              (varints (match_sizes ts)) (varints (match_distances ts)) p0 p1 p2 p3 p4,
      rw (
        holds.tokens_eq, holds.literals_eq, holds.literal_lengths_eq, holds.match_lengths_eq,
        holds.distances_eq, e0.encodes, e1.encodes, e2.encodes, e3.encodes, e4.encodes, front.packs,
      ),
      body_reads n (tags ts) (all_literals ts) (varints (literal_sizes ts))
            (varints (match_sizes ts)) (varints (match_distances ts)) p0 p1 p2 p3 p4 front fits e0
            e1 e2 e3 e4
          ∙ decode_streams_lem n ts block refl (omega (arith, small)) plays,
    )
