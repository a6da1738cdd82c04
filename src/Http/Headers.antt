-- ===== src/Http/Headers.antt =====
-- Looking headers up in src/ecosystem/http/payload.rs.
use uringy.Common.{
  ◌≡◌, refl, ◌∙◌, ◌⊎◌, inl, inr, Option, none, some, List, [], ◌∷◌, if◌then◌else◌, arith,
  Bool-cases,
}
use uringy.Common.Text.{lowercase, same_letters}
use uringy.Http.Payload.{
  Text, Map, map_from, map_insert, Request, lowercase_names, header_params, request_header,
}

abbrev pub or_last : Option Text → Option Text → Option Text
or_last (some v) o = some v
or_last none o = o

-- The last header of a name, whose letters may differ in case.
abbrev pub last_header : Text → List (Text × Text) → Option Text
last_header name [] = none
last_header name ((k, v) ∷ headers) =
    or_last (last_header name headers) (if same_letters name k then some v else none)

abbrev pub header_table : List (Text × Text) → Map
header_table headers = map_from (lowercase_names headers) (λ _. none)

-- The cell is empty, or has the table of the headers.
abbrev pub IsConsistent : Request → Type 0
IsConsistent request =
    (request.header_map ≡ none) ⊎ (request.header_map ≡ some (header_table request.headers))

map_from-last :
    (name : Text) (headers : List (Text × Text)) (m : Map)
    → map_from (lowercase_names headers) m (lowercase name)
      ≡ or_last (last_header name headers) (m (lowercase name))
map_from-last name [] m = refl
map_from-last name ((k, v) ∷ headers) m =
    map_from-last name headers (map_insert (lowercase k) v m)
    ∙ or_last-if (last_header name headers)
  where
    or_last-if :
        (o : Option Text)
        → or_last o (if same_letters name k then some v else m (lowercase name))
          ≡ or_last (or_last o (if same_letters name k then some v else none)) (m (lowercase name))
    or_last-if (some x) = refl
    or_last-if none = elim (Bool-cases (same_letters name k)) [
      | inl h ↦ ground (arith, h)
      | inr h ↦ ground (arith, h)
    ]

-- `Request::header` gives the last header of the name, whatever the case of its letters, in the first
-- call and from the cell in the later ones; the headers stay, and the cell stays consistent with them.
pub request_header-last :
    (name : Text) (request : Request)
    → IsConsistent request
    → ((request_header name request).0 ≡ last_header name request.headers)
      × IsConsistent (request_header name request).1
      × ((request_header name request).1.headers ≡ request.headers)
unfolding request_header header_params
request_header-last name request (inl fresh) = (
  ground (arith, fresh, map_from-last name request.headers (λ _. none)),
  rw fresh (inr refl),
  ground (arith, fresh),
)
request_header-last name request (inr cached) = (
  ground (arith, cached, map_from-last name request.headers (λ _. none)),
  rw cached (inr refl),
  ground (arith, cached),
)
