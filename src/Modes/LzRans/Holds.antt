-- ===== src/Modes/LzRans/Holds.antt =====
-- The streams of the tokenizer of modes/lz_rans.py, as a sequence of tokens.
use mosaic_archive.Base.{
  ℕ, ◌≡◌, refl, sym, ap, ◌∙◌, List, [], ◌∷◌, ◌++◌, append-nil, append_assoc, Bytes, length, join,
  map,
}
use mosaic_archive.Modes.LzSimple.{Positions}
use mosaic_archive.Modes.LzRans.{Tokenizer}
use mosaic_archive.Modes.LzRans.Varint.{varint, encode_varint, encode_varint_lem}
use mosaic_archive.Modes.LzRans.Tokens.{
  Token, literal, match, literal_part, literal_sizes, match_sizes, match_distances, tag, tags,
  all_literals, varints,
}

-- The streams hold the tokens.
pub record Holds (ts : List Token) (s : Tokenizer) : Type 0 where
  pub tokens_eq : s.tokens ≡ tags ts
  pub literals_eq : s.literals ≡ all_literals ts
  pub literal_lengths_eq : s.literal_lengths ≡ varints (literal_sizes ts)
  pub match_lengths_eq : s.match_lengths ≡ varints (match_sizes ts)
  pub distances_eq : s.distances ≡ varints (match_distances ts)

map_snoc :
    {A B : Type 0} (f : A → B) (xs : List A) (x : A)
    → map f xs ++ (f x ∷ []) ≡ map f (xs ++ (x ∷ []))
map_snoc f [] x = refl
map_snoc f (y ∷ xs) x = ap (λ r. f y ∷ r) (map_snoc f xs x)

join_snoc : (xs : List Bytes) (x : Bytes) → join xs ++ x ≡ join (xs ++ (x ∷ []))
join_snoc [] x = sym (append-nil x)
join_snoc (y ∷ xs) x = append_assoc y (join xs) x ∙ ap (λ r. y ++ r) (join_snoc xs x)

varints_snoc : (vs : List ℕ) (v : ℕ) → varints vs ++ varint v ≡ varints (vs ++ (v ∷ []))
varints_snoc vs v = join_snoc (map varint vs) (varint v) ∙ ap join (map_snoc varint vs v)

all_literals_snoc :
    (ts : List Token) (t : Token)
    → all_literals ts ++ literal_part t ≡ all_literals (ts ++ (t ∷ []))
all_literals_snoc ts t =
    join_snoc (map literal_part ts) (literal_part t) ∙ ap join (map_snoc literal_part ts t)

module _ (bytes : Bytes) where
  literal_sizes_literal :
      (ts : List Token)
      → literal_sizes ts ++ (length bytes ∷ []) ≡ literal_sizes (ts ++ (literal bytes ∷ []))
  literal_sizes_literal [] = refl
  literal_sizes_literal (literal b ∷ ts) = ap (λ r. length b ∷ r) (literal_sizes_literal ts)
  literal_sizes_literal (match n d ∷ ts) = literal_sizes_literal ts

  match_sizes_literal :
      (ts : List Token) → match_sizes ts ≡ match_sizes (ts ++ (literal bytes ∷ []))
  match_sizes_literal [] = refl
  match_sizes_literal (literal b ∷ ts) = match_sizes_literal ts
  match_sizes_literal (match n d ∷ ts) = ap (λ r. n ∷ r) (match_sizes_literal ts)

  distances_literal :
      (ts : List Token) → match_distances ts ≡ match_distances (ts ++ (literal bytes ∷ []))
  distances_literal [] = refl
  distances_literal (literal b ∷ ts) = distances_literal ts
  distances_literal (match n d ∷ ts) = ap (λ r. d ∷ r) (distances_literal ts)

module _ (k e : ℕ) where
  literal_sizes_match :
      (ts : List Token) → literal_sizes ts ≡ literal_sizes (ts ++ (match k e ∷ []))
  literal_sizes_match [] = refl
  literal_sizes_match (literal b ∷ ts) = ap (λ r. length b ∷ r) (literal_sizes_match ts)
  literal_sizes_match (match n d ∷ ts) = literal_sizes_match ts

  match_sizes_match :
      (ts : List Token) → match_sizes ts ++ (k ∷ []) ≡ match_sizes (ts ++ (match k e ∷ []))
  match_sizes_match [] = refl
  match_sizes_match (literal b ∷ ts) = match_sizes_match ts
  match_sizes_match (match n d ∷ ts) = ap (λ r. n ∷ r) (match_sizes_match ts)

  distances_match :
      (ts : List Token) → match_distances ts ++ (e ∷ []) ≡ match_distances (ts ++ (match k e ∷ []))
  distances_match [] = refl
  distances_match (literal b ∷ ts) = distances_match ts
  distances_match (match n d ∷ ts) = ap (λ r. d ∷ r) (distances_match ts)

encode_varint-varints :
    (v : ℕ) (out : Bytes) (vs ws : List ℕ)
    → out ≡ varints vs
    → vs ++ (v ∷ []) ≡ ws
    → encode_varint v out ≡ varints ws
encode_varint-varints v out vs ws h e =
    encode_varint_lem v out ∙ ap (λ r. r ++ varint v) h ∙ varints_snoc vs v ∙ ap varints e

-- The streams after a run of literals, and after a match.
pub Holds-literal :
    (ts : List Token) (s : Tokenizer) (p pending : Bytes) (positions : Positions) (position : ℕ)
    → Holds ts s
    → Holds (ts ++ (literal p ∷ [])) (record {
      tokens = s.tokens ++ (0 ∷ []);
      literals = s.literals ++ p;
      literal_lengths = encode_varint (length p) s.literal_lengths;
      match_lengths = s.match_lengths;
      distances = s.distances;
      pending_literals = pending;
      positions = positions;
      position = position;
    })
Holds-literal ts s p pending positions position h = record {
  tokens_eq = ap (λ r. r ++ (0 ∷ [])) h.tokens_eq ∙ map_snoc tag ts (literal p);
  literals_eq = ap (λ r. r ++ p) h.literals_eq ∙ all_literals_snoc ts (literal p);
  literal_lengths_eq =
      encode_varint-varints (length p) s.literal_lengths (literal_sizes ts) _ h.literal_lengths_eq
        (literal_sizes_literal p ts);
  match_lengths_eq = h.match_lengths_eq ∙ ap varints (match_sizes_literal p ts);
  distances_eq = h.distances_eq ∙ ap varints (distances_literal p ts);
}

pub Holds-match :
    (ts : List Token) (s : Tokenizer) (n distance : ℕ) (positions : Positions) (position : ℕ)
    → Holds ts s
    → Holds (ts ++ (match n distance ∷ [])) (record {
      tokens = s.tokens ++ (1 ∷ []);
      literals = s.literals;
      literal_lengths = s.literal_lengths;
      match_lengths = encode_varint n s.match_lengths;
      distances = encode_varint distance s.distances;
      pending_literals = s.pending_literals;
      positions = positions;
      position = position;
    })
Holds-match ts s n distance positions position h = record {
  tokens_eq = ap (λ r. r ++ (1 ∷ [])) h.tokens_eq ∙ map_snoc tag ts (match n distance);
  literals_eq =
      h.literals_eq ∙ sym (append-nil (all_literals ts)) ∙ all_literals_snoc ts (match n distance);
  literal_lengths_eq = h.literal_lengths_eq ∙ ap varints (literal_sizes_match n distance ts);
  match_lengths_eq =
      encode_varint-varints n s.match_lengths (match_sizes ts) _ h.match_lengths_eq
        (match_sizes_match n distance ts);
  distances_eq =
      encode_varint-varints distance s.distances (match_distances ts) _ h.distances_eq
        (distances_match n distance ts);
}
