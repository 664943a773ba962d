-- ===== src/Modes/LzRans/Tokenize.antt =====
-- The tokenizer of modes/lz_rans.py: the tokens that its streams hold write the block.
use mathlib.Core.Path.{subst}
use mosaic_archive.Base.{
  ℕ, zero, suc, ◌+◌, ◌-◌, ◌≤◌, ◌<◌, ◌≡◌, refl, sym, ap, ◌∙◌, List, [], ◌∷◌, ◌++◌, append-nil,
  append_assoc, Bytes, length, length-append, length-take, take, take_all, arith, ltb, leb, ◌==◌,
  ne→==_false, ==_iff, Bool-cases, inl, inr, false,
}
use mosaic_archive.Modes.LzSimple.Copied.{copied}
use mosaic_archive.Modes.LzSimple.Window.{at, take_snoc, copy_window}
use mosaic_archive.Modes.LzSimple.Search.{Indexed, IsMatch}
use mosaic_archive.Modes.LzRans.{
  minimum_match, find_match, Tokenizer, flush_literals, emit_match, emit_literal, tokenize_step,
  tokenize_loop, start, tokenize,
}
use mosaic_archive.Modes.LzRans.Search.{Indexed-index_at, Indexed-range, find-IsMatch}
use mosaic_archive.Modes.LzRans.Holds.{Holds, Holds-literal, Holds-match}
use mosaic_archive.Modes.LzRans.Tokens.{Token, literal, match, Plays, Plays-append}

-- The tokens so far write the block up to the pending literals, and the table indexes it.
pub record IsSound (block : Bytes) (s : Tokenizer) : Type 0 where
  pub written : List Token
  pub done : Bytes
  pub holds : Holds written s
  pub plays : Plays (length block) written [] done
  pub pending : done ++ s.pending_literals ≡ take s.position block
  pub inside : s.position ≤ length block
  pub indexed : Indexed block s.positions

length_taken : (block : Bytes) (n : ℕ) → n ≤ length block → length (take n block) ≡ n
length_taken block n h = omega (arith, length-take n block)

-- A flush leaves no literals pending and everything up to the position written.
pub record Flushed (block : Bytes) (s t : Tokenizer) : Type 0 where
  pub sound : IsSound block t
  pub all_written : sound.done ≡ take s.position block
  pub same_position : t.position ≡ s.position
  pub emptied : t.pending_literals ≡ []

flush_some :
    (block : Bytes) (s : Tokenizer)
    → 0 < length s.pending_literals
    → IsSound block s
    → Flushed block s (flush_literals s)
unfolding flush_literals
flush_some block s pos i =
    let e : length s.pending_literals == 0 ≡ false = ne→==_false _ 0 (λ z. omega (arith, z, pos)) in
    let p = s.pending_literals in
    let total = ap length i.pending in
    rw e (record {
      sound = record {
        written = i.written ++ (literal p ∷ []);
        done = i.done ++ p;
        holds = Holds-literal i.written s p [] s.positions s.position i.holds;
        plays =
            Plays-append (length block) i.written (literal p ∷ []) [] i.done (i.done ++ p) i.plays (
              pos,
              omega (
                arith,
                total,
                length-append i.done p,
                length_taken block s.position i.inside,
                i.inside,
              ),
              refl,
            );
        pending = append-nil (i.done ++ p) ∙ i.pending;
        inside = i.inside;
        indexed = i.indexed;
      };
      all_written = i.pending;
      same_position = refl;
      emptied = refl;
    })

nothing_left : (xs : Bytes) → length xs ≡ 0 → xs ≡ []
nothing_left [] h = refl
nothing_left (x ∷ xs) h = absurd (omega (arith, h))

flush-Flushed :
    (block : Bytes) (s : Tokenizer) → IsSound block s → Flushed block s (flush_literals s)
flush-Flushed block s i = elim (Bool-cases (length s.pending_literals == 0)) [
  | inr e ↦ flush_some block s (ground arith) i
  | inl e ↦
      let none : s.pending_literals ≡ [] = nothing_left s.pending_literals ((==_iff _ _).0 e) in
      let whole : i.done ≡ take s.position block =
        sym (append-nil i.done) ∙ ap (λ p. i.done ++ p) (sym none) ∙ i.pending in
      unfold flush_literals in
      rw e (record { sound = i; all_written = whole; same_position = refl; emptied = none })
]

emit_literal-IsSound :
    (block : Bytes) (s : Tokenizer)
    → s.position < length block
    → IsSound block s
    → IsSound block (emit_literal block s)
unfolding emit_literal
emit_literal-IsSound block s lt i =
    let here = at block s.position ∷ [] in
    let h = i.holds in
    record {
      written = i.written;
      done = i.done;
      holds = record {
        tokens_eq = h.tokens_eq;
        literals_eq = h.literals_eq;
        literal_lengths_eq = h.literal_lengths_eq;
        match_lengths_eq = h.match_lengths_eq;
        distances_eq = h.distances_eq;
      };
      plays = i.plays;
      pending =
          sym (append_assoc i.done s.pending_literals here)
          ∙ ap (λ r. r ++ here) i.pending
          ∙ take_snoc s.position block lt;
      inside = omega arith;
      indexed = Indexed-index_at block s.positions s.position i.indexed;
    }

emit_match-IsSound :
    (block : Bytes) (s : Tokenizer) (n distance : ℕ)
    → IsMatch block s.position (n, distance)
    → minimum_match ≤ n
    → IsSound block s
    → IsSound block (emit_match block s n distance)
      × ((emit_match block s n distance).position ≡ s.position + n)
unfolding emit_match
emit_match-IsSound block s n distance m long i =
    let t = flush_literals s in
    let f = flush-Flushed block s i in
    let g = f.sound in
    let (pos, back) = m.back (omega arith) in
    let at_position : s.position - distance + distance ≡ s.position = omega arith in
    let same_window : copied n distance (take s.position block) ≡ take (s.position + n) block =
      rw at_position at (
        copy_window block (s.position - distance) distance n (m.repeats (omega arith)) pos
          (omega (arith, m.inside))) in
    let len = length_taken block s.position i.inside in
    let moved : t.position + n ≡ s.position + n = ap (λ p. p + n) f.same_position in
    (
      record {
        written = g.written ++ (match n distance ∷ []);
        done = take (s.position + n) block;
        holds = Holds-match g.written t n distance _ _ g.holds;
        plays = Plays-append (length block) g.written (match n distance ∷ []) [] g.done _ g.plays (
            rw f.all_written (
              long,
              m.short,
              pos,
              m.near,
              omega (arith, len),
              omega (arith, len, m.inside),
              same_window,
            ));
        pending =
            ap (λ p. take (s.position + n) block ++ p) f.emptied
            ∙ append-nil (take (s.position + n) block)
            ∙ ap (λ q. take q block) (sym moved);
        inside = rw moved m.inside;
        indexed = Indexed-range block n t.position t.positions g.indexed;
      },
      moved,
    )

tokenize_step-IsSound :
    (block : Bytes) (s : Tokenizer)
    → s.position < length block
    → IsSound block s
    → IsSound block (tokenize_step block s) × (s.position < (tokenize_step block s).position)
unfolding tokenize_step
tokenize_step-IsSound block s lt i =
    let found = find-IsMatch block s.positions s.position i.indexed i.inside in
    elim (Bool-cases (leb minimum_match (find_match block s.positions s.position).0)) [
      | inl e ↦
          let (sound, moved) = emit_match-IsSound block s _ _ found (ground arith) i in
          rw e (sound, ground arith)
      | inr e ↦ rw e (emit_literal-IsSound block s lt i, unfold emit_literal in omega arith)
    ]

-- With as many rounds as bytes are left, the loop ends by its test.
tokenize_loop-IsSound :
    (block : Bytes) (fuel : ℕ) (s : Tokenizer)
    → length block ≤ s.position + fuel
    → IsSound block s
    → IsSound block (tokenize_loop fuel block s)
      × (length block ≤ (tokenize_loop fuel block s).position)
unfolding tokenize_loop
tokenize_loop-IsSound block zero s h i = (i, omega arith)
tokenize_loop-IsSound block (suc fuel) s h i = elim (Bool-cases (ltb s.position (length block))) [
  | inl e ↦
      let (sound, moves) = tokenize_step-IsSound block s (ground arith) i in
      rw e (tokenize_loop-IsSound block fuel (tokenize_step block s) (omega (arith, moves)) sound)
  | inr e ↦ rw e (i, ground arith)
]

start-IsSound : (block : Bytes) → IsSound block start
start-IsSound block = record {
  written = [];
  done = [];
  holds = record {
    tokens_eq = refl;
    literals_eq = refl;
    literal_lengths_eq = refl;
    match_lengths_eq = refl;
    distances_eq = refl;
  };
  plays = refl;
  pending = refl;
  inside = omega arith;
  indexed = λ key. tt;
}

-- The tokens of a block write the block, and the streams hold them.
pub tokenize_lem :
    (block : Bytes)
    → (ts : List Token) × Holds ts (tokenize block) × Plays (length block) ts [] block
unfolding tokenize
tokenize_lem block =
    let (sound, over) =
      tokenize_loop-IsSound block (length block) start (omega arith) (start-IsSound block) in
    let s = tokenize_loop (length block) block start in
    let f = flush-Flushed block s sound in
    let g = f.sound in
    (
      g.written,
      g.holds,
      subst (Plays (length block) g.written []) (f.all_written ∙ take_all s.position block over)
          g.plays,
    )
