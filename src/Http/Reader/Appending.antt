-- ===== src/Http/Reader/Appending.antt =====
-- What the reader of a connection in src/ecosystem/http/server/mod.rs has put into the buffer.
use native.Mathlib.Nat.{mod-eq_of_lt}
use mathlib.Core.Path.{subst}
use uringy.Common.{
  ℕ, ◌+◌, ◌-◌, ◌≤◌, ◌<◌, ◌≡◌, sym, ap, ◌∙◌, Bool, true, Option, List, [], ◌∷◌, ◌++◌, append_assoc,
  append-nil, Result, ok, returns, length, length-append, arith,
}
use uringy.Errors.{IoError}
use uringy.CircularBuffer.Memory.{Translate, Files}
use uringy.CircularBuffer.{State, usize_mod, wrapping_add}
use uringy.CircularBuffer.Refine.{IsValid, IsMapped, contents, write-commit-contents}
use uringy.CircularBuffer.Commit.{commit_eq}
use uringy.Http.Reader.{taken, reader}

-- A round that has read something: the first byte, the others, and the waker that is left by then.
abbrev pub Chunk : Type 0
Chunk = ℕ × List ℕ × Option ℕ

-- The bytes of the rounds, and the fibers that wait in them.
abbrev pub bytes_of : List Chunk → List ℕ
bytes_of [] = []
bytes_of ((byte, bytes, waiting) ∷ chunks) = (byte ∷ bytes) ++ bytes_of chunks

abbrev pub wakers_of : List Chunk → List ℕ
wakers_of [] = []
wakers_of ((byte, bytes, waiting) ∷ chunks) = taken waiting ++ wakers_of chunks

appended : (x y z now later : List ℕ) → y ≡ x ++ now → z ≡ y ++ later → z ≡ x ++ (now ++ later)
appended x y z now later e f = f ∙ (ap (λ c. c ++ later) e ∙ append_assoc x now later)

module _ (checks : Bool) (t : Translate) where
  -- The rounds, and at last the end of the stream.
  abbrev pub rounds_of : List Chunk → Option ℕ → List (Result (List ℕ) IoError × Option ℕ)
  rounds_of [] waiting = (ok [], waiting) ∷ []
  rounds_of ((byte, bytes, waker) ∷ chunks) waiting =
      (ok (byte ∷ bytes), waker) ∷ rounds_of chunks waiting

  -- If the buffer has room for all that is read, the reader appends it to what the buffer holds, in
  -- order, and schedules each fiber that waited when data came. At the end of the stream the loop is over,
  -- and a fiber that waits then is not scheduled.
  pub reader-appends :
      (chunks : List Chunk) (waiting : Option ℕ) (files : Files) (s : State)
      → IsValid s
      → IsMapped t s
      → length (bytes_of chunks) + (s.tail - s.head) ≤ s.length
      → s.tail + length (bytes_of chunks) < usize_mod
      → (files' : Files) × (s' : State) × (reader checks t (rounds_of chunks waiting) s files
          ≡ returns
              (record { buffer = s'; files = files'; woken = wakers_of chunks; is_over = true }))
        × (contents files' s' ≡ contents files s ++ bytes_of chunks)
        × IsValid s'
  unfolding reader
  reader-appends [] waiting files s v m room small =
      let (d, files1, s1, sliced, fits, wrote, committed, grown, v1) =
        write-commit-contents checks t files [] v m (omega (arith, v.within))
          (omega (arith, small)) in
      (files, s, ground (arith, sliced), sym (append-nil (contents files s)), v)
  reader-appends ((byte, bytes, waker) ∷ chunks) waiting files s v m room small =
      let here : List ℕ = byte ∷ bytes in
      let total : length (here ++ bytes_of chunks) ≡ length here + length (bytes_of chunks) =
        length-append here (bytes_of chunks) in
      let (d, files1, s1, sliced, fits, wrote, committed, grown, v1) =
        write-commit-contents checks t files here v m (omega (arith, total))
          (omega (arith, total)) in
      let moved : s1 ≡ record s { tail = wrapping_add s.tail (length here) } =
        commit_eq checks s s1 (length here) committed in
      let tail' : wrapping_add s.tail (length here) ≡ s.tail + length here =
        mod-eq_of_lt (omega (arith, total)) in
      let m1 : IsMapped t s1 = subst (IsMapped t) (sym moved) m in
      let (files2, s2, e, all, v2) =
        reader-appends chunks waiting files1 s1 v1 m1
          (omega (
            arith,
            total,
            ap (λ x. x.tail) moved,
            ap (λ x. x.head) moved,
            ap (λ x. x.length) moved,
            tail',
            v.ordered,
          ))
          (omega (arith, total, ap (λ x. x.tail) moved, tail')) in
      (
        files2,
        s2,
        ground (arith, sliced, wrote, committed, e),
        appended (contents files s) (contents files1 s1) (contents files2 s2) here (bytes_of chunks)
            grown all,
        v2,
      )
