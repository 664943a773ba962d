-- ===== src/Modes/Deflate/Stored.antt =====
-- A stand-in for zlib, for the tests.
use mosaic_archive.Base.{
  ℕ, ◌-◌, refl, [], append-nil, Bytes, length, take, drop, take_all, drop_all, arith, true, some,
}
use mosaic_archive.Modes.Deflate.{Zlib, ZlibLaws}

-- A `zlib` that stores the data: what an object has not yet given out is its state.
abbrev pub stored : Zlib
stored = record {
  Decoder = Bytes;
  compress = λ block. block;
  decompressobj = [];
  decompress = λ decoder payload room. some (drop room payload, take room payload);
  flush = λ decoder room. some ([], take room decoder);
  eof = λ decoder. true;
  unused_data = λ decoder. [];
  unconsumed_tail = λ decoder. decoder;
}

pub stored_laws : ZlibLaws stored
stored_laws = record {
  inflates = λ block room h. record {
    decoder = [];
    output = block;
    decompresses = rw (drop_all room block (omega arith), take_all room block (omega arith));
    taken = refl;
    flushed = [];
    remainder = take (room - length block) [];
    flushes = refl;
    whole = rw (take_all {A = ℕ} (room - length block) [] (omega arith)) (append-nil block);
    ended = refl;
    nothing_unused = refl;
    nothing_left = refl;
  };
}
