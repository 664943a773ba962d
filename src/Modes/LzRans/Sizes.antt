-- ===== src/Modes/LzRans/Sizes.antt =====
-- The sizes of the five streams of modes/lz_rans.py, measured by the bytes that their tokens write.
use mosaic_archive.Base.{
  ℕ, suc, ◌+◌, ◌^◌, ◌≤◌, ◌<◌, ◌≡◌, refl, ap, List, [], ◌∷◌, ◌++◌, Bytes, IsByte, All, All-append,
  All-front, All-back, length, length-append, arith,
}
use mosaic_archive.Modes.LzSimple.Copied.{copied, length-copied, All-copied}
use mosaic_archive.Modes.LzRans.{minimum_match, count}
use mosaic_archive.Modes.LzRans.Varint.{
  varint, varint-IsByte, length-varint_le, length-varint_three,
}
use mosaic_archive.Modes.LzRans.Tokens.{
  Token, literal, match, literal_sizes, match_sizes, match_distances, tags, all_literals, varints,
  Plays,
}

pub varints-IsByte : (values : List ℕ) → All IsByte (varints values)
varints-IsByte [] = tt
varints-IsByte (v ∷ vs) =
    All-append IsByte (varint v) (varints vs) (varint-IsByte v) (varints-IsByte vs)

pub tags-IsByte : (ts : List Token) → All IsByte (tags ts)
tags-IsByte [] = tt
tags-IsByte (literal bytes ∷ ts) = (omega arith, tags-IsByte ts)
tags-IsByte (match n d ∷ ts) = (omega arith, tags-IsByte ts)

-- The decoder counts the tokens of each kind.
pub count_literals : (ts : List Token) → count 0 (tags ts) ≡ length (literal_sizes ts)
unfolding count
count_literals [] = refl
count_literals (literal bytes ∷ ts) = omega (arith, count_literals ts)
count_literals (match n d ∷ ts) = omega (arith, count_literals ts)

pub count_matches : (ts : List Token) → count 1 (tags ts) ≡ length (match_sizes ts)
unfolding count
count_matches [] = refl
count_matches (literal bytes ∷ ts) = omega (arith, count_matches ts)
count_matches (match n d ∷ ts) = omega (arith, count_matches ts)

pub count_distances : (ts : List Token) → length (match_distances ts) ≡ length (match_sizes ts)
count_distances [] = refl
count_distances (literal bytes ∷ ts) = count_distances ts
count_distances (match n d ∷ ts) = ap suc (count_distances ts)

pub count_all :
    (ts : List Token) → length (literal_sizes ts) + length (match_sizes ts) ≡ length (tags ts)
count_all [] = refl
count_all (literal bytes ∷ ts) = omega (arith, count_all ts)
count_all (match n d ∷ ts) = omega (arith, count_all ts)

pub record Sized (ts : List Token) (n : ℕ) : Type 0 where
  pub tags_fit : length (tags ts) ≤ n
  pub literals_fit : length (all_literals ts) ≤ n
  pub literal_sizes_fit : length (varints (literal_sizes ts)) ≤ n
  pub match_sizes_fit : length (varints (match_sizes ts)) ≤ n
  pub distances_fit : length (varints (match_distances ts)) ≤ n

Sized-literal :
    (ts : List Token) (bytes : Bytes) (m n : ℕ)
    → 0 < length bytes
    → length bytes + m ≤ n
    → Sized ts m
    → Sized (literal bytes ∷ ts) n
Sized-literal ts bytes m n pos le s = record {
  tags_fit = omega (arith, s.tags_fit);
  literals_fit = omega (arith, s.literals_fit, length-append bytes (all_literals ts));
  literal_sizes_fit = omega (
    arith,
    s.literal_sizes_fit,
    length-varint_le (length bytes) pos,
    length-append (varint (length bytes)) (varints (literal_sizes ts)),
  );
  match_sizes_fit = omega (arith, s.match_sizes_fit);
  distances_fit = omega (arith, s.distances_fit);
}

Sized-match :
    (ts : List Token) (k d m n : ℕ)
    → minimum_match ≤ k
    → d ≤ 65535
    → k + m ≤ n
    → Sized ts m
    → Sized (match k d ∷ ts) n
Sized-match ts k d m n long near le s = record {
  tags_fit = omega (arith, s.tags_fit);
  literals_fit = omega (arith, s.literals_fit);
  literal_sizes_fit = omega (arith, s.literal_sizes_fit);
  match_sizes_fit = omega (
    arith,
    s.match_sizes_fit,
    length-varint_le k (omega arith),
    length-append (varint k) (varints (match_sizes ts)),
  );
  distances_fit = omega (
    arith,
    s.distances_fit,
    length-varint_three d (omega arith),
    length-append (varint d) (varints (match_distances ts)),
  );
}

-- No stream is longer than what its tokens write, and the output grows by at least as much.
pub Plays-Sized :
    (size : ℕ) (ts : List Token) (before after : Bytes)
    → Plays size ts before after
    → (n : ℕ) × (length before + n ≡ length after) × Sized ts n
Plays-Sized size [] before after p = (
  0,
  omega (arith, ap length p),
  record {
    tags_fit = omega arith;
    literals_fit = omega arith;
    literal_sizes_fit = omega arith;
    match_sizes_fit = omega arith;
    distances_fit = omega arith;
  },
)
Plays-Sized size (literal bytes ∷ ts) before after p =
    let (n, e, s) = Plays-Sized size ts (before ++ bytes) after p.2 in
    (
      length bytes + n,
      omega (arith, e, length-append before bytes),
      Sized-literal ts bytes n (length bytes + n) p.0 (omega arith) s,
    )
Plays-Sized size (match k d ∷ ts) before after p =
    let (n, e, s) = Plays-Sized size ts (copied k d before) after p.6 in
    (
      k + n,
      omega (arith, e, length-copied k d before),
      Sized-match ts k d n (k + n) p.0 p.3 (omega arith) s,
    )

-- The literals of a byte string are bytes.
pub Plays-IsByte :
    (size : ℕ) (ts : List Token) (before after : Bytes)
    → Plays size ts before after
    → All IsByte after
    → All IsByte before × All IsByte (all_literals ts)
Plays-IsByte size [] before after p h = (rw p h, tt)
Plays-IsByte size (literal bytes ∷ ts) before after p h =
    let (a, b) = Plays-IsByte size ts (before ++ bytes) after p.2 h in
    (
      All-front IsByte before bytes a,
      All-append IsByte bytes (all_literals ts) (All-back IsByte before bytes a) b,
    )
Plays-IsByte size (match k d ∷ ts) before after p h =
    let (a, b) = Plays-IsByte size ts (copied k d before) after p.6 h in
    (All-copied k d before a, b)

abbrev pub IsWord : ℕ → Type 0
IsWord v = v < 2 ^ 32

-- The values of the variable-length numbers are below 2 ^ 32 where the size of the block is.
pub Plays-IsWord :
    (size : ℕ) (ts : List Token) (before after : Bytes)
    → size < 2 ^ 32
    → Plays size ts before after
    → All IsWord (literal_sizes ts) × All IsWord (match_sizes ts) × All IsWord (match_distances ts)
Plays-IsWord size [] before after h p = (tt, tt, tt)
Plays-IsWord size (literal bytes ∷ ts) before after h p =
    let (a, b, c) = Plays-IsWord size ts (before ++ bytes) after h p.2 in
    ((omega (arith, p.1), a), b, c)
Plays-IsWord size (match k d ∷ ts) before after h p =
    let (a, b, c) = Plays-IsWord size ts (copied k d before) after h p.6 in
    (a, (omega (arith, p.1), b), (omega (arith, p.3), c))
