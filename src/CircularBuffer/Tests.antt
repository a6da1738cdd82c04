-- ===== src/CircularBuffer/Tests.antt =====
-- Tests of the model of src/circular_buffer.rs, after those of its own test module.
use uringy.Common.{
  ℕ, ◌+◌, ◌-◌, ◌%◌, ◌^◌, ◌≤◌, ◌<◌, ◌≡◌, refl, ap, ◌⊎◌, ◌↔◌, true, false, List, [], ◌∷◌, Option,
  none, some, Result, ok, err, returns, panics, arith, leb, ltb, ◌&&◌, if◌then◌else◌,
}
use uringy.CircularBuffer.Memory.{Kernel, Flag, Files, invalid_input, read_slice, write_slice}
use uringy.CircularBuffer.{
  State, Slice, commit, consume, data_len, uninit_len, deref_data, deref_uninit, calculate_length,
  p2_modulo, drop_state, data_is_empty, uninit_is_empty,
}
use uringy.CircularBuffer.Refine.{
  IsValid, IsMapped, contents, deref_data-contents, write-commit-contents, consume-contents,
  p2_modulo-eq-mod,
}
use uringy.CircularBuffer.Length.{calculate_length_lem}
use uringy.CircularBuffer.Wrap.{commit-consume-panics, commit-wrapped}

-- A kernel that keeps the mappings of files, newest first, and always succeeds.
abbrev Regions : Type 0
Regions = List (ℕ × ℕ × ℕ)

abbrev lookup_region : Regions → ℕ → Option (ℕ × ℕ)
lookup_region [] a = none
lookup_region ((fd, p, n) ∷ rs) a =
    if leb p a && ltb a (p + n) then some (fd, a - p) else lookup_region rs a

region_inside :
    (fd pointer size : ℕ) (prot flags : List Flag) (s s' : Regions) (i : ℕ)
    → ◌≡◌ {A = Result (Unit {0}) ℕ × Regions} (ok tt, (fd, pointer, size) ∷ s) (ok tt, s')
    → i < size
    → lookup_region s' (pointer + i) ≡ some (fd, i)
region_inside fd pointer size prot flags s s' i e h =
    let same : (fd, pointer, size) ∷ s ≡ s' = ap (λ (p : Result (Unit {0}) ℕ × Regions). p.1) e in
    rw (← same) (ground arith)

region_outside :
    (fd pointer size : ℕ) (prot flags : List Flag) (s s' : Regions) (a : ℕ)
    → ◌≡◌ {A = Result (Unit {0}) ℕ × Regions} (ok tt, (fd, pointer, size) ∷ s) (ok tt, s')
    → (a < pointer) ⊎ (pointer + size ≤ a)
    → lookup_region s' a ≡ lookup_region s a
region_outside fd pointer size prot flags s s' a e h =
    let same : (fd, pointer, size) ∷ s ≡ s' = ap (λ (p : Result (Unit {0}) ℕ × Regions). p.1) e in
    rw (← same) (ground arith)

abbrev linux : Kernel
linux = record {
  Space = Regions;
  page_size = 4096;
  memfd_create = λ flags s. (ok 3, s);
  close = λ fd s. s;
  set_len = λ fd n s. (ok tt, s);
  mmap_anonymous = λ n prot flags s. (ok 65536, s);
  mmap_file = λ fd p n prot flags s. (ok tt, (fd, p, n) ∷ s);
  munmap = λ p n s. (ok tt, []);
  translate = lookup_region;
  mmap_inside = λ fd p n prot flags s s' i fixed shared. region_inside fd p n prot flags s s' i;
  mmap_outside = λ fd p n prot flags s s' a fixed whole. region_outside fd p n prot flags s s' a;
}

-- A buffer of eight bytes that holds five, two of them round the end of the file.
abbrev wrapped : State
wrapped = record { file = 3; pointer = 100; head = 6; tail = 11; length = 8 }

abbrev wrapped_space : Regions
wrapped_space = (3, 108, 8) ∷ (3, 100, 8) ∷ []

abbrev letters : Files
letters fd i = 65 + i

wrapped-IsValid : IsValid wrapped
wrapped-IsValid = record {
  log2_length = 3;
  length_eq = refl;
  length_small = omega arith;
  ordered = omega arith;
  within = omega arith;
  tail_small = omega arith;
}

wrapped-IsMapped : IsMapped (lookup_region wrapped_space) wrapped
wrapped-IsMapped i h = ground arith

contents-wrapped : contents letters wrapped ≡ 71 ∷ 72 ∷ 65 ∷ 66 ∷ 67 ∷ []
contents-wrapped = refl

lengths :
    (data_len true wrapped ≡ returns 5)
    × (uninit_len true wrapped ≡ returns 3)
    × (data_is_empty true wrapped ≡ returns false)
    × (uninit_is_empty true wrapped ≡ returns false)
unfolding data_len uninit_len data_is_empty uninit_is_empty
lengths = (refl, refl, refl, refl)

cleans_up : drop_state linux false wrapped wrapped_space ≡ []
unfolding drop_state
cleans_up = refl

-- A request for no bytes gives a buffer of one byte, which no page size divides.
zero_length : calculate_length false 4096 0 ≡ ok 1
unfolding calculate_length
zero_length = refl

too_long : calculate_length false 4096 (2 ^ 63 + 1) ≡ err invalid_input
unfolding calculate_length
too_long = refl

huge_page : calculate_length true 4096 1 ≡ ok (2 ^ 21)
unfolding calculate_length
huge_page = refl

p2_modulo-eq-mod_test : p2_modulo 4099 (2 ^ 12) ≡ 3
p2_modulo-eq-mod_test = p2_modulo-eq-mod 4099 12

deref_data-contents_example :
    (d : Slice) × (deref_data true wrapped ≡ returns d)
    × (read_slice (lookup_region wrapped_space) letters d.address d.count
        ≡ some (71 ∷ 72 ∷ 65 ∷ 66 ∷ 67 ∷ []))
deref_data-contents_example =
    deref_data-contents true (lookup_region wrapped_space) letters wrapped-IsValid wrapped-IsMapped

write-commit-contents_example :
    (d : Slice) × (files' : Files) × (s' : State) × (deref_uninit true wrapped ≡ returns d)
    × (2 ≤ d.count)
    × (write_slice (lookup_region wrapped_space) letters d.address (1 ∷ 2 ∷ []) ≡ some files')
    × (commit true wrapped 2 ≡ returns s')
    × (contents files' s' ≡ 71 ∷ 72 ∷ 65 ∷ 66 ∷ 67 ∷ 1 ∷ 2 ∷ [])
    × IsValid s'
write-commit-contents_example =
    write-commit-contents true (lookup_region wrapped_space) letters (1 ∷ 2 ∷ []) wrapped-IsValid
      wrapped-IsMapped (omega arith) (omega arith)

consume-contents_example :
    ((consume wrapped 3).1 ≡ returns tt)
    × (contents letters (consume wrapped 3).0 ≡ 66 ∷ 67 ∷ [])
    × IsValid (consume wrapped 3).0
consume-contents_example = consume-contents letters 3 wrapped-IsValid (omega arith)

calculate_length_lem_example :
    (k : ℕ) × (calculate_length false 4096 5000 ≡ ok (2 ^ k))
    × (5000 ≤ 2 ^ k)
    × (2 ^ k % 4096 ≡ 0)
    × ((l : ℕ) → 12 ≤ l → 5000 ≤ 2 ^ l → k ≤ l)
calculate_length_lem_example =
    calculate_length_lem 12 5000 (omega arith) (omega arith) (omega arith)

made : State
made = record { file = 3; pointer = 65536; head = 0; tail = 0; length = 4096 }

commit-consume-panics_test :
    ((commit true wrapped 4 ≡ panics) ↔ (8 < 9)) × (((consume wrapped 4).1 ≡ panics) ↔ (5 < 4))
commit-consume-panics_test = commit-consume-panics true 4 wrapped-IsValid (omega arith)

-- Seven bytes below 2^64, and room for one more.
abbrev late : State
late = record { file = 3; pointer = 100; head = 2 ^ 64 - 8; tail = 2 ^ 64 - 1; length = 8 }

late-IsValid : IsValid late
late-IsValid = record {
  log2_length = 3;
  length_eq = refl;
  length_small = omega arith;
  ordered = omega arith;
  within = omega arith;
  tail_small = omega arith;
}

commit-wrapped_example :
    (s' : State) × (commit true late 1 ≡ returns s')
    × (data_len true s' ≡ panics)
    × ((consume s' 7).1 ≡ panics)
commit-wrapped_example =
    commit-wrapped true 1 7 late-IsValid (omega arith) (omega arith) (omega arith)
