-- ===== src/Modes/LzSimple/RoundTrip.antt =====
-- LZ_SIMPLE: what the encoder writes decodes to the block.
use mosaic_archive.Base.{
  ℕ, zero, suc, ◌+◌, ◌-◌, ◌≤◌, ◌<◌, ◌≡◌, refl, sym, ap, ◌∙◌, [], ◌∷◌, ◌++◌, append-nil,
  append_assoc, Bytes, length, length-append, length-take, take, drop, take-append-drop, take_all,
  length-drop, arith, ltb, leb, ◌==◌, ==_refl, Bool-cases, inl, inr, ok, min,
}
use mathlib.Core.Path.{subst}
use mosaic_archive.Struct.Integers.{be}
use mosaic_archive.Modes.LzSimple.Copied.{copied}
use mosaic_archive.Modes.LzSimple.{
  minimum_match, emit_literals_loop, emit_literals, find_match, Encoder, flush, emit_match,
  emit_literal, encode_step, encode_loop, start, encode, decode_loop, decode, index_position,
}
use mosaic_archive.Modes.LzSimple.Window.{at, take_snoc, copy_window}
use mosaic_archive.Modes.LzSimple.Search.{
  Indexed, Indexed-index_position, Indexed-index_range, IsMatch, find_match-IsMatch,
}
use mosaic_archive.Modes.LzSimple.Tokens.{
  Decodes, Decodes-nothing, Decodes-append, Decodes-literal, Decodes-match,
}

emit_loop-Decodes :
    (size fuel : ℕ) (literals output before done : Bytes)
    → length literals ≤ fuel
    → length done + length literals ≤ size
    → Decodes size output before done
    → Decodes size (emit_literals_loop fuel literals output) before (done ++ literals)
unfolding emit_literals_loop
emit_loop-Decodes size zero [] output before done h fits d = rw append-nil d
emit_loop-Decodes size (suc fuel) [] output before done h fits d = rw append-nil d
emit_loop-Decodes size zero (b ∷ ls) output before done h fits d = absurd (omega arith)
emit_loop-Decodes size (suc fuel) (b ∷ ls) output before done h fits d =
    subst (Decodes size _ before) whole (
      emit_loop-Decodes size fuel rest (output ++ (0 ∷ (be 2 (length chunk) ++ chunk))) before
        (done ++ chunk) (omega (arith, l2)) (omega (arith, l1, l2, length-append done chunk))
        (Decodes-append size output _ before done (done ++ chunk) d (
          Decodes-literal size chunk done (omega (arith, l1)) (omega (arith, l1))
            (omega (arith, l1)))))
  where
    chunk : Bytes
    chunk = take 65535 (b ∷ ls)

    rest : Bytes
    rest = drop 65535 (b ∷ ls)

    l1 : length chunk ≡ min 65535 (suc (length ls))
    l1 = length-take 65535 (b ∷ ls)

    l2 : length rest ≡ suc (length ls) - 65535
    l2 = length-drop 65535 (b ∷ ls)

    whole : (done ++ chunk) ++ rest ≡ done ++ (b ∷ ls)
    whole = append_assoc done chunk rest ∙ ap (λ r. done ++ r) (take-append-drop 65535 (b ∷ ls))

-- The output so far decodes to the block up to the pending literals, and the table indexes it.
record IsSound (block : Bytes) (s : Encoder) : Type 0 where
  done : Bytes
  decodes : Decodes (length block) s.output [] done
  pending : done ++ s.literals ≡ take s.position block
  inside : s.position ≤ length block
  indexed : Indexed block s.positions

length_taken : (block : Bytes) (n : ℕ) → n ≤ length block → length (take n block) ≡ n
length_taken block n h = omega (arith, length-take n block)

flush-IsSound : (block : Bytes) (s : Encoder) → IsSound block s → IsSound block (flush s)
unfolding flush emit_literals
flush-IsSound block s i = record {
  done = i.done ++ s.literals;
  decodes =
      emit_loop-Decodes (length block) (length s.literals) s.literals s.output [] i.done
        (omega arith)
        (omega (
          arith,
          ap length i.pending,
          length-append i.done s.literals,
          length_taken block s.position i.inside,
        ))
        i.decodes;
  pending = append-nil (i.done ++ s.literals) ∙ i.pending;
  inside = i.inside;
  indexed = i.indexed;
}

emit_literal-IsSound :
    (block : Bytes) (s : Encoder)
    → s.position < length block
    → IsSound block s
    → IsSound block (emit_literal block s)
unfolding emit_literal
emit_literal-IsSound block s lt i =
    elim (Bool-cases (length (s.literals ++ (at block s.position ∷ [])) == 65535)) [
      | inl e ↦ rw e (flush-IsSound block next sound)
      | inr e ↦ rw e sound
    ]
  where
    next : Encoder
    next = record {
      output = s.output;
      literals = s.literals ++ (at block s.position ∷ []);
      positions = index_position block s.positions s.position;
      position = s.position + 1;
    }

    sound : IsSound block next
    sound = record {
      done = i.done;
      decodes = i.decodes;
      pending =
          sym (append_assoc i.done s.literals (at block s.position ∷ []))
          ∙ ap (λ r. r ++ (at block s.position ∷ [])) i.pending
          ∙ take_snoc s.position block lt;
      inside = omega arith;
      indexed = Indexed-index_position block s.positions s.position i.indexed;
    }

emit_match-IsSound :
    (block : Bytes) (s : Encoder) (n distance : ℕ)
    → IsMatch block s.position (n, distance)
    → minimum_match ≤ n
    → IsSound block s
    → IsSound block (emit_match block s n distance)
unfolding emit_match flush
emit_match-IsSound block s n distance m long i =
    let f = flush-IsSound block s i in
    let (pos, near) = m.back (omega arith) in
    let at_position : s.position - distance + distance ≡ s.position = omega arith in
    let same_window : copied n distance (take s.position block) ≡ take (s.position + n) block =
      rw at_position at (
        copy_window block (s.position - distance) distance n (m.repeats (omega arith)) pos
          (omega (arith, m.inside))) in
    let flushed : f.done ≡ take s.position block = sym (append-nil f.done) ∙ f.pending in
    let len = length_taken block s.position i.inside in
    record {
      done = take (s.position + n) block;
      decodes = subst (Decodes (length block) _ []) same_window (
          Decodes-append (length block) (flush s).output _ [] (take s.position block) _
            (subst (Decodes (length block) (flush s).output []) flushed f.decodes)
            (Decodes-match (length block) distance n (take s.position block) pos
              (omega (arith, len)) m.near long m.short (omega (arith, len, m.inside))));
      pending = append-nil (take (s.position + n) block);
      inside = m.inside;
      indexed = Indexed-index_range block n s.position s.positions i.indexed;
    }

encode_step-IsSound :
    (block : Bytes) (s : Encoder)
    → s.position < length block
    → IsSound block s
    → IsSound block (encode_step block s) × (s.position < (encode_step block s).position)
unfolding encode_step
encode_step-IsSound block s lt i =
    elim (Bool-cases (leb minimum_match (find_match block s.positions s.position).0)) [
      | inl e ↦ rw e (
        emit_match-IsSound block s _ _ found (ground arith) i,
        unfold emit_match flush in ground arith,
      )
      | inr e ↦ rw e (emit_literal-IsSound block s lt i, moves)
    ]
  where
    found : IsMatch block s.position (find_match block s.positions s.position)
    found = find_match-IsMatch block s.positions s.position i.indexed i.inside

    moves : s.position < (emit_literal block s).position
    moves = unfold emit_literal flush in ground arith

-- With as many rounds as bytes are left, the loop ends by its test.
encode_loop-IsSound :
    (block : Bytes) (fuel : ℕ) (s : Encoder)
    → length block ≤ s.position + fuel
    → IsSound block s
    → IsSound block (encode_loop fuel block s)
      × (length block ≤ (encode_loop fuel block s).position)
unfolding encode_loop
encode_loop-IsSound block zero s h i = (i, omega arith)
encode_loop-IsSound block (suc fuel) s h i = elim (Bool-cases (ltb s.position (length block))) [
  | inl e ↦
      let (sound, moves) = encode_step-IsSound block s (ground arith) i in
      rw e (encode_loop-IsSound block fuel (encode_step block s) (omega (arith, moves)) sound)
  | inr e ↦ rw e (i, ground arith)
]

start-IsSound : (block : Bytes) → IsSound block start
start-IsSound block = record {
  done = [];
  decodes = Decodes-nothing (length block) [];
  pending = refl;
  inside = omega arith;
  indexed = λ key. tt;
}

encode-Decodes : (block : Bytes) → Decodes (length block) (encode block) [] block
unfolding encode flush
encode-Decodes block =
    let (sound, over) =
      encode_loop-IsSound block (length block) start (omega arith) (start-IsSound block) in
    let s = encode_loop (length block) block start in
    let f = flush-IsSound block s sound in
    subst (Decodes (length block) (flush s).output [])
      (sym (append-nil f.done) ∙ f.pending ∙ take_all s.position block over) f.decodes

-- Decoding what `encode` wrote for any byte string, with the length of that string as the expected
-- size, gives the string back: the match finder, the token stream and both loops included.
pub lz_simple_round_trip : (block : Bytes) → decode (encode block) (length block) ≡ ok block
unfolding decode
lz_simple_round_trip block =
    let d = encode-Decodes block in
    let left = length (encode block) - d.steps in
    let run : decode_loop (length (encode block)) (length block) (encode block) [] ≡ ok block =
      rw append-nil at (d.runs (length (encode block)) left [] (omega (arith, d.bounded)))
      ∙ unfold decode_loop in refl in
    rw (run, ==_refl)
