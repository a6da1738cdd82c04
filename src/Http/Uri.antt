-- ===== src/Http/Uri.antt =====
-- `parse_partial_uri` and `parse_query` of src/ecosystem/http/server/mod.rs. A URI is the list of its
-- code points, which `c as u8` cuts to a byte; slicing one byte after a longer character panics.
use native.Mathlib.Decide.{ℕ_discrete}
use mathlib.Core.Bool.{true≢false}
use uringy.Common.{
  ℕ, suc, ◌+◌, ◌*◌, ◌%◌, ◌<◌, ◌≡◌, refl, sym, ap, ◌∙◌, Bool, true, false, ◌&&◌, ◌||◌, Option, none,
  some, [], ◌∷◌, ◌++◌, Panics, returns, panics, ◌>>=◌, if◌then◌else◌, ◌==◌, leb, ltb, All, arith,
}
use uringy.Http.Payload.{Text}

-- Code points that a path and a query may have.
unfoldable pub is_path_byte : ℕ → Bool
is_path_byte c =
    c == 0x21
    || leb 0x24 c && leb c 0x3B
    || c == 0x3D
    || leb 0x40 c && leb c 0x5F
    || leb 0x61 c && leb c 0x7A
    || c == 0x7C
    || c == 0x7E
    || c == b'"'
    || c == b'{'
    || c == b'}'

unfoldable pub is_query_byte : ℕ → Bool
is_query_byte c =
    c == b'?' || c == 0x21 || leb 0x24 c && leb c 0x3B || c == 0x3D || leb 0x3F c && leb c 0x7E

-- What a loop over the characters comes to, with the characters before in front.
abbrev pub after_char : ℕ → Panics Text → Panics Text
after_char c rest = do t ← rest; returns (c ∷ t)

unfoldable pub parse_query : Text → Panics Text
parse_query [] = returns []
parse_query (c ∷ cs) =
    let rest = parse_query cs in
    if c % 256 == b'#'
    then returns []
    else if is_query_byte (c % 256)
    then after_char c rest
    else panics

abbrev pub in_path : ℕ → Panics (Text × Text) → Panics (Text × Text)
in_path c rest = do (path, query) ← rest; returns (c ∷ path, query)

unfoldable pub parse_partial_uri : Text → Panics (Text × Text)
unfolding parse_query
parse_partial_uri [] = returns ([], [])
parse_partial_uri (c ∷ cs) =
    let rest = parse_partial_uri cs in
    if c % 256 == b'?'
    then (if ltb c 128 then (do query ← parse_query cs; returns ([], query)) else panics)
    else if c % 256 == b'#'
    then returns ([], [])
    else if is_path_byte (c % 256)
    then in_path c rest
    else panics

abbrev pub with_fragment : Option Text → Text
with_fragment none = []
with_fragment (some fragment) = b'#' ∷ fragment

abbrev pub with_query : Option Text → Option Text → Text
with_query none fragment = with_fragment fragment
with_query (some query) fragment = b'?' ∷ (query ++ with_fragment fragment)

-- A URI of its parts.
abbrev pub uri_of : Text → Option Text → Option Text → Text
uri_of path query fragment = path ++ with_query query fragment

abbrev pub or_empty : Option Text → Text
or_empty none = []
or_empty (some t) = t

abbrev pub IsPath : Text → Type 0
IsPath path = All (λ c. (c < 128) × (is_path_byte c ≡ true)) path

abbrev pub IsQuery : Option Text → Type 0
IsQuery none = Unit {0}
IsQuery (some query) = All (λ c. (c < 128) × (is_query_byte c ≡ true)) query

-- A character of a path is neither of those that end it, and one of a query does not end it.
path_byte_lem : (c : ℕ) → is_path_byte c ≡ true → ((c == b'?') ≡ false) × ((c == b'#') ≡ false)
unfolding is_path_byte
path_byte_lem c v = (other b'?' refl, other b'#' refl)
  where
    other : (d : ℕ) → is_path_byte d ≡ false → (c == d) ≡ false
    other d h = elim (ℕ_discrete c d) [
      | yes e ↦ absurd (true≢false (sym v ∙ ap is_path_byte e ∙ h))
      | no ne ↦ ground arith
    ]

query_byte_lem : (c : ℕ) → is_query_byte c ≡ true → (c == b'#') ≡ false
unfolding is_query_byte
query_byte_lem c v = elim (ℕ_discrete c b'#') [
  | yes e ↦ absurd (true≢false (sym v ∙ ap is_query_byte e))
  | no ne ↦ ground arith
]

small_byte : (c : ℕ) → c < 128 → c % 256 ≡ c
small_byte c h = omega arith

parse_query-reads :
    (query : Text) (fragment : Option Text)
    → IsQuery (some query)
    → parse_query (query ++ with_fragment fragment) ≡ returns query
unfolding parse_query
parse_query-reads [] none v = refl
parse_query-reads [] (some f) v = refl
parse_query-reads (c ∷ cs) fragment (p, v) =
    ground (arith, small_byte c p.0, query_byte_lem c p.1, parse_query-reads cs fragment v)

-- A URI is split into its path and its query, which is empty if there is none; a fragment is dropped,
-- whatever it is. The path and the query have the characters allowed there.
pub parse_partial_uri-reads :
    (path : Text) (query fragment : Option Text)
    → IsPath path
    → IsQuery query
    → parse_partial_uri (uri_of path query fragment) ≡ returns (path, or_empty query)
unfolding parse_partial_uri
parse_partial_uri-reads [] none none v w = refl
parse_partial_uri-reads [] none (some f) v w = refl
parse_partial_uri-reads [] (some q) fragment v w = ground (arith, parse_query-reads q fragment w)
parse_partial_uri-reads (c ∷ cs) query fragment (p, v) w =
    ground
      (arith, small_byte c p.0, path_byte_lem c p.1, parse_partial_uri-reads cs query fragment v w)

-- A character that is not ASCII and whose code point ends in the byte of a question mark panics where
-- it is taken for one.
pub parse_partial_uri-panics :
    (path rest : Text) (k : ℕ)
    → IsPath path
    → parse_partial_uri (path ++ ((256 * suc k + b'?') ∷ rest)) ≡ panics
unfolding parse_partial_uri
parse_partial_uri-panics [] rest k v =
    let low : (256 * suc k + b'?') % 256 ≡ b'?' = omega arith in
    let high : ltb (256 * suc k + b'?') 128 ≡ false = ground arith in ground (arith, low, high)
parse_partial_uri-panics (c ∷ cs) rest k (p, v) =
    ground (arith, small_byte c p.0, path_byte_lem c p.1, parse_partial_uri-panics cs rest k v)
