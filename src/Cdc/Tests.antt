-- ===== src/Cdc/Tests.antt =====
-- The chunker on a concrete stream, with the identity for a table.
use mosaic_archive.Base.{
  ℕ, ◌≡◌, refl, ◌≤◌, List, [], ◌∷◌, ◌++◌, Bytes, length, replicate, join, All, ok, err, value_error,
}
use mosaic_archive.Cdc.{
  ChunkingConfig, post_init, iter_content_defined_chunks, read_blocks, block_loop, block_round,
  find_boundary, next_fingerprint,
}
use mosaic_archive.Cdc.Boundaries.{AllButLast}
use mosaic_archive.Cdc.Scan.{chunks}
use mosaic_archive.Cdc.Iteration.{
  iter_content_defined_chunks_lem, iter_content_defined_chunks_bounds,
}

abbrev config : ChunkingConfig
config = record { min_size = 64; avg_size = 64; max_size = 66 }

-- Under it ones keep the fingerprint odd, and a zero as the first byte that is read into the
-- fingerprint ends the chunk.
abbrev gear : ℕ → ℕ
gear byte = byte

config-valid : post_init config ≡ ok tt
unfolding post_init
config-valid = refl

config_too_small :
    post_init (record { min_size = 63; avg_size = 64; max_size = 66 }) ≡ err value_error
unfolding post_init
config_too_small = refl

abbrev ones : ℕ → Bytes
ones n = replicate n 1

abbrev blocks : List Bytes
blocks = ones 65 ∷ ones 5 ∷ (ones 59 ++ (0 ∷ 1 ∷ [])) ∷ []

-- The first chunk runs to the greatest size, over the end of its block; the second ends at the zero,
-- and the last with the stream.
chunks-sample :
    iter_content_defined_chunks gear config blocks
    ≡ ok (ones 66 ∷ (ones 63 ++ (0 ∷ [])) ∷ (1 ∷ []) ∷ [])
unfolding iter_content_defined_chunks read_blocks block_loop block_round find_boundary
    next_fingerprint
chunks-sample = refl

iter_content_defined_chunks_lem_example :
    iter_content_defined_chunks gear config blocks ≡ ok (chunks gear config 0 [] (join blocks))
iter_content_defined_chunks_lem_example =
    iter_content_defined_chunks_lem gear config blocks config-valid

iter_content_defined_chunks_bounds_example :
    (chunks : List Bytes) × (iter_content_defined_chunks gear config blocks ≡ ok chunks)
    × (join chunks ≡ join blocks)
    × All (λ c. length c ≤ config.max_size) chunks
    × AllButLast (λ c. config.min_size ≤ length c) chunks
iter_content_defined_chunks_bounds_example =
    iter_content_defined_chunks_bounds gear config blocks config-valid
