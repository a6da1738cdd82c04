-- ===== src/Http/Tests/Connections.antt =====
-- Runs of the connections of src/ecosystem/http/server/mod.rs, with a parser of two requests.
use uringy.Common.{
  join, ℕ, ◌-◌, ◌^◌, ◌<◌, ◌≡◌, refl, true, false, none, some, List, [], ◌∷◌, ◌++◌, returns, panics,
  Result, ok, if◌then◌else◌, ◌==◌, arith,
}
use uringy.Common.Text.{codes}
use uringy.Common.Decimal.{decimal}
use uringy.Http.Payload.{
  Text, post, Request, new_request, Response, method_from_str, contents, content_type_of,
}
use uringy.Http.Uri.{uri_of, parse_partial_uri, is_path_byte, parse_partial_uri-reads}
use uringy.Http.Router.{new_responder, Router, method_handler, send_body, handle}
use uringy.Http.Server.{
  Parsed, complete, partial_head, waiting, answered, serialize, serve_round, handle_connection,
}
use uringy.Http.Server.Wire.{response_parts, serialize-response_parts}
use uringy.Http.Server.Serving.{serve_round-answers, serve_round-overflows, handle_connection-waits}
use uringy.Http.Tests.{hello, paths, router, taken, path_lem}

-- A connection on which the whole request is there when the data has ten bytes.
abbrev append_to : Text → Text → Result Text ℕ
append_to t w = ok (w ++ t)

-- A writer that holds back nothing.
abbrev drained : Text → Text
drained w = w

abbrev sized : ℕ → List (Text × Text)
sized n = (codes "Content-Length", decimal n) ∷ []

abbrev parse : Text → Parsed
parse (c ∷ cs) =
    if c == b'!'
    then complete 1 (some (codes "POST")) (some (uri_of (codes "/a") none none))
        (sized (2 ^ 64 - 1))
    else complete 4 (some (codes "POST")) (some (uri_of (codes "/a") none none)) (sized 2)
parse [] = partial_head

abbrev hi : Response
hi = record {
  status = new_responder.status;
  headers = [];
  body = codes "hi";
  content_type = some (codes "text/plain");
}

sent : (w' : Text) × (serialize Text ℕ append_to (codes "now") hi [] ≡ returns (ok w'))
unfolding serialize
sent = (_, refl)

post_lem : method_from_str (codes "POST") ≡ ok post
unfolding method_from_str
post_lem = refl

abbrev routed : Router ℕ paths
routed = record router { matcher = (codes "/a", record taken { post = some hello }) ∷ [] }

abbrev posted : Request
posted = new_request post (codes "/a") [] (sized 2) (codes "xy")

handled : handle ℕ paths new_responder posted routed ≡ returns (some hi)
unfolding handle method_handler hello send_body contents content_type_of
handled = refl

a_path :
    (b'/' < 128 × (is_path_byte b'/' ≡ true))
    × ((b'a' < 128 × (is_path_byte b'a' ≡ true)) × Unit {0})
a_path = ((omega arith, path_lem.0), ((omega arith, path_lem.1), tt))

serve_round-answers_example :
    serve_round Text ℕ append_to
      (codes "now")
      drained
      ℕ
      paths
      parse
      routed
      []
      (codes "head" ++ (codes "xy" ++ codes "z"))
    ≡ returns (answered (drained sent.0) (codes "xy" ++ codes "z"))
serve_round-answers_example =
    serve_round-answers Text ℕ append_to (codes "now") drained ℕ paths parse routed [] sent.0
      (codes "head") (codes "xy") (codes "z") (codes "POST") (codes "/a") none none post (sized 2)
      hi refl refl (omega arith) post_lem a_path tt handled sent.1

a_uri : parse_partial_uri (codes "/a") ≡ returns (codes "/a", [])
a_uri = parse_partial_uri-reads (codes "/a") none none a_path tt

serve_round-overflows_example :
    serve_round Text ℕ append_to (codes "now") drained ℕ paths parse routed [] (codes "!x") ≡ panics
serve_round-overflows_example =
    serve_round-overflows Text ℕ append_to (codes "now") drained ℕ paths parse routed []
      (codes "!x") (codes "POST") (codes "/a") (codes "/a") [] 1 post (sized (2 ^ 64 - 1)) refl refl
      (omega arith) (omega arith) (omega arith) a_uri post_lem

waits :
    serve_round Text ℕ append_to (codes "now") drained ℕ paths parse routed [] [] ≡ returns waiting
unfolding serve_round
waits = refl

handle_connection-waits_test :
    handle_connection Text ℕ append_to
      (codes "now")
      drained
      ℕ
      paths
      parse
      ((false, []) ∷ (false, []) ∷ (false, codes "headxy") ∷ [])
      routed
      []
    ≡ handle_connection Text ℕ append_to
        (codes "now")
        drained
        ℕ
        paths
        parse
        ((false, codes "headxy") ∷ [])
        routed
        []
handle_connection-waits_test =
    handle_connection-waits Text ℕ append_to (codes "now") drained ℕ paths parse ([] ∷ [] ∷ [])
      ((false, codes "headxy") ∷ []) routed [] (waits, (waits, tt))

abbrev tagged : Response
tagged = record hi { headers = (codes "etag", codes "1") ∷ [] }

serialize-response_parts_example :
    (w' : Text) × (serialize Text ℕ append_to (codes "now") tagged (codes "x") ≡ returns (ok w'))
    × (w' ≡ codes "x" ++ join (response_parts (codes "now") tagged) [])
serialize-response_parts_example =
    serialize-response_parts Text ℕ append_to (codes "now") (λ w. w) (λ t w. (w ++ t, refl, refl))
      tagged (codes "x") (refl, tt)
