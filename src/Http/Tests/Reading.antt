-- ===== src/Http/Tests/Reading.antt =====
-- A run of the reader of src/ecosystem/http/server/mod.rs on a buffer of eight bytes.
use uringy.Common.{
  ◌+◌, ◌-◌, ◌≡◌, refl, true, ◌&&◌, none, some, List, [], ◌∷◌, ◌++◌, returns, leb, ltb, arith,
  if◌then◌else◌,
}
use uringy.CircularBuffer.Memory.{Translate, Files}
use uringy.CircularBuffer.{State}
use uringy.CircularBuffer.Refine.{IsValid, IsMapped, contents}
use uringy.Http.Reader.{reader}
use uringy.Http.Reader.Appending.{Chunk, rounds_of, reader-appends}

abbrev fresh : State
fresh = record { file = 3; pointer = 100; head = 4; tail = 6; length = 8 }

abbrev twice : Translate
twice a =
    if leb 100 a && ltb a 108
    then some (3, a - 100)
    else if leb 108 a && ltb a 116
    then some (3, a - 108)
    else none

abbrev letters : Files
letters fd i = 65 + i

fresh-IsValid : IsValid fresh
fresh-IsValid = record {
  log2_length = 3;
  length_eq = refl;
  length_small = omega arith;
  ordered = omega arith;
  within = omega arith;
  tail_small = omega arith;
}

fresh-IsMapped : IsMapped twice fresh
fresh-IsMapped i h = (ground arith, ground arith)

-- Two rounds, and fiber 1 waits in the second of them and at the end of the stream.
abbrev chunks : List Chunk
chunks = (71, 69 ∷ [], none) ∷ (84, [], some 1) ∷ []

reader-appends_example :
    (files' : Files) × (s' : State) × (reader true twice
        (rounds_of true twice chunks (some 1))
        fresh
        letters
      ≡ returns (record { buffer = s'; files = files'; woken = 1 ∷ []; is_over = true }))
    × (contents files' s' ≡ contents letters fresh ++ (71 ∷ 69 ∷ 84 ∷ []))
    × IsValid s'
reader-appends_example =
    reader-appends true twice chunks (some 1) letters fresh fresh-IsValid fresh-IsMapped
      (omega arith) (omega arith)
