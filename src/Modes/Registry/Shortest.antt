-- ===== src/Modes/Registry/Shortest.antt =====
-- `min` over the candidates of modes/__init__.py, and the list of them.
use mathlib.Core.Path.{subst}
use mosaic_archive.Base.{
  ℕ, ◌≤◌, ◌≡◌, refl, sym, List, [], ◌∷◌, Bytes, All, length, ltb, arith, ok, Bool-cases, inl, inr,
  true, false,
}
use mosaic_archive.Modes.Registry.{
  CompressionMode, EncodedBlock, encode_all, shortest, choose, min_payload,
}

module _ (best c : EncodedBlock) (cs : List EncodedBlock) where
  shortest_shorter :
      ltb (length c.payload) (length best.payload) ≡ true → shortest best (c ∷ cs) ≡ shortest c cs
  unfolding shortest
  shortest_shorter e = rw e

  shortest_kept :
      ltb (length c.payload) (length best.payload) ≡ false
      → shortest best (c ∷ cs) ≡ shortest best cs
  unfolding shortest
  shortest_kept e = rw e

shortest-All :
    (P : EncodedBlock → Type 0) (best : EncodedBlock) (cs : List EncodedBlock)
    → P best
    → All P cs
    → P (shortest best cs)
shortest-All P best [] p h = unfold shortest in p
shortest-All P best (c ∷ cs) p h =
    elim (Bool-cases (ltb (length c.payload) (length best.payload))) [
      | inl e ↦ rw (shortest_shorter best c cs e) (shortest-All P c cs h.0 h.1)
      | inr e ↦ rw (shortest_kept best c cs e) (shortest-All P best cs p h.1)
    ]

abbrev AtMost : List EncodedBlock → EncodedBlock → Type 0
AtMost cs e = All (λ c. length e.payload ≤ length c.payload) cs

shortest-least :
    (best : EncodedBlock) (cs : List EncodedBlock) → AtMost (best ∷ cs) (shortest best cs)
shortest-least best [] = unfold shortest in (omega arith, tt)
shortest-least best (c ∷ cs) = elim (Bool-cases (ltb (length c.payload) (length best.payload))) [
  | inl e ↦
      let (a, b) = shortest-least c cs in
      subst (AtMost (best ∷ c ∷ cs)) (sym (shortest_shorter best c cs e)) (ground arith, (a, b))
  | inr e ↦
      let (a, b) = shortest-least best cs in
      subst (AtMost (best ∷ c ∷ cs)) (sym (shortest_kept best c cs e)) (a, (ground arith, b))
]

-- A mode gives back the block from what it encodes.
abbrev pub Restores : Bytes → CompressionMode → Type 0
Restores block m =
    (payload : Bytes) × (m.encode block ≡ ok payload) × (m.decode payload (length block) ≡ ok block)

-- A mode encodes the block, in no less than `n` bytes.
abbrev pub NoShorter : Bytes → ℕ → CompressionMode → Type 0
NoShorter block n m = (payload : Bytes) × (m.encode block ≡ ok payload) × (n ≤ length payload)

module _ (block : Bytes) (P : CompressionMode → Type 0) where
  record Candidates (modes : List CompressionMode) : Type 0 where
    found : List EncodedBlock
    encodes : encode_all modes block ≡ ok found
    restored : All (λ e. P e.mode × (e.mode.decode e.payload (length block) ≡ ok block)) found
    least : (n : ℕ) → All (λ e. n ≤ length e.payload) found → All (NoShorter block n) modes

  candidates :
      (modes : List CompressionMode) → All P modes → All (Restores block) modes → Candidates modes
  unfolding encode_all
  candidates [] p h = record { found = []; encodes = refl; restored = tt; least = λ n k. tt }
  candidates (m ∷ ms) p h =
      let (payload, encoded, decoded) = h.0 in
      let c = candidates ms p.1 h.1 in
      record {
        found = record { mode = m; payload = payload } ∷ c.found;
        encodes = rw (encoded, c.encodes);
        restored = ((p.0, decoded), c.restored);
        least = λ n k. ((payload, encoded, k.0), c.least n k.1);
      }

  -- What a choice among modes gives.
  pub record Chosen (modes : List CompressionMode) (e : EncodedBlock) : Type 0 where
    pub chosen_mode : P e.mode
    pub restores : e.mode.decode e.payload (length block) ≡ ok block
    pub shortest_of_all : All (NoShorter block (length e.payload)) modes

  pub choose_lem :
      (m : CompressionMode) (ms : List CompressionMode)
      → All P (m ∷ ms)
      → All (Restores block) (m ∷ ms)
      → (e : EncodedBlock) × (choose (m ∷ ms) block ≡ ok e) × Chosen (m ∷ ms) e
  unfolding choose encode_all min_payload
  choose_lem m ms p h =
      let (payload, encoded, decoded) = h.0 in
      let c = candidates ms p.1 h.1 in
      let first : EncodedBlock = record { mode = m; payload = payload } in
      let (kept, restored) =
        shortest-All (λ e. P e.mode × (e.mode.decode e.payload (length block) ≡ ok block)) first
          c.found (p.0, decoded) c.restored in
      let (a, b) = shortest-least first c.found in
      (
        shortest first c.found,
        rw (encoded, c.encodes),
        record {
          chosen_mode = kept;
          restores = restored;
          shortest_of_all = ((payload, encoded, a), c.least _ b);
        },
      )
