-- ===== src/Http/Server/Wire.antt =====
-- What `serialize` of src/ecosystem/http/server/mod.rs writes.
use uringy.Common.{
  ◌≡◌, refl, sym, ap, ◌∙◌, false, Option, none, some, List, [], ◌∷◌, ◌++◌, append-nil, append_assoc,
  join, Panics, returns, Result, ok, length, All, arith,
}
use uringy.Common.Text.{codes}
use uringy.Common.Decimal.{decimal}
use uringy.Http.Payload.{Text, Response, status_number}
use uringy.Http.Server.{write, write_headers, write_content_type, serialize, is_reserved}

abbrev pub newline : Text
newline = 13 ∷ 10 ∷ []

abbrev pub colon : Text
colon = codes ": "

-- The lines of headers in front of other parts.
abbrev pub header_lines : List (Text × Text) → List Text → List Text
header_lines [] ps = ps
header_lines ((name, value) ∷ headers) ps = name ∷ colon ∷ value ∷ newline ∷ header_lines headers ps

abbrev pub content_type_line : Option Text → List Text → List Text
content_type_line none ps = ps
content_type_line (some t) ps = codes "content-type" ∷ colon ∷ t ∷ newline ∷ ps

-- The response with its status line, the headers of the server, the handler's headers, and the body.
abbrev pub response_parts : Text → Response → List Text
response_parts date response =
    codes "HTTP/1.1 "
    ∷ decimal (status_number response.status)
    ∷ codes " "
    ∷ codes "OK"
    ∷ newline
    ∷ codes "content-length"
    ∷ colon
    ∷ decimal (length response.body)
    ∷ newline
    ∷ content_type_line response.content_type (
        codes "date"
        ∷ colon
        ∷ date
        ∷ newline
        ∷ (codes "connection: close" ++ newline)
        ∷ header_lines response.headers (newline ∷ response.body ∷ []))

module _ (W E : Type 0) (write_all : Text → W → Result W E) (date : Text) (written : W → Text)
    (accepts : (t : Text) (w : W)
      → (w' : W) × (write_all t w ≡ ok w') × (written w' ≡ written w ++ t)) where
  -- What follows writes these parts.
  record Writes (next : W → Panics (Result W E)) (ps : List Text) : Type 0 where
    writes :
        (w : W) → (w' : W) × (next w ≡ returns (ok w')) × (written w' ≡ written w ++ join ps [])

  write-Writes :
      (t : Text) (ps : List Text) (next : W → Panics (Result W E))
      → Writes next ps
      → Writes (write W E write_all date t next) (t ∷ ps)
  write-Writes t ps next h = record {
    writes = λ w.
        let (w1, accepted, grown) = accepts t w in
        let (w2, e, grown') = h.writes w1 in
        (
          w2,
          ground (arith, accepted, e),
          grown' ∙ ap (λ b. b ++ join ps []) grown ∙ append_assoc (written w) t (join ps []),
        );
  }

  end-Writes : Writes (λ w. returns (ok w)) []
  end-Writes = record { writes = λ w. (w, refl, sym (append-nil (written w))) }

  headers-Writes :
      (headers : List (Text × Text)) (ps : List Text) (next : W → Panics (Result W E))
      → All (λ h. is_reserved W E write_all date h.0 ≡ false) headers
      → Writes next ps
      → Writes (write_headers W E write_all date headers next) (header_lines headers ps)
  headers-Writes [] ps next v h = h
  headers-Writes ((name, value) ∷ headers) ps next (free, v) h =
      let rest : Writes _ _ = write-Writes name _ _ (
        write-Writes colon _ _ (
          write-Writes value _ _
            (write-Writes newline _ _ (headers-Writes headers ps next v h)))) in
      record {
        writes = λ w. let (w', e, grown) = rest.writes w in (w', ground (arith, free, e), grown);
      }

  content_type-Writes :
      (o : Option Text) (ps : List Text) (next : W → Panics (Result W E))
      → Writes next ps
      → Writes (write_content_type W E write_all date o next) (content_type_line o ps)
  content_type-Writes none ps next h = h
  content_type-Writes (some t) ps next h =
      write-Writes (codes "content-type") (colon ∷ t ∷ newline ∷ ps) _ (
        write-Writes colon (t ∷ newline ∷ ps) _
          (write-Writes t (newline ∷ ps) _ (write-Writes newline ps next h)))

  -- A response none of whose headers is one that the server writes itself is written into a writer
  -- that takes everything, and what is written is the status line with its number and "OK", the
  -- length, the content type if there is one, the date, the headers in order and the body.
  pub serialize-response_parts :
      (response : Response) (w : W)
      → All (λ h. is_reserved W E write_all date h.0 ≡ false) response.headers
      → (w' : W) × (serialize W E write_all date response w ≡ returns (ok w'))
        × (written w' ≡ written w ++ join (response_parts date response) [])
  unfolding serialize
  serialize-response_parts response w v =
      (write-Writes (codes "HTTP/1.1 ") _ _ (
          write-Writes (decimal (status_number response.status)) _ _ (
            write-Writes (codes " ") _ _ (
              write-Writes (codes "OK") _ _ (
                write-Writes newline _ _ (
                  write-Writes (codes "content-length") _ _ (
                    write-Writes colon _ _ (
                      write-Writes (decimal (length response.body)) _ _ (
                        write-Writes newline _ _ (
                          content_type-Writes response.content_type _ _ (
                            write-Writes (codes "date") _ _ (
                              write-Writes colon _ _ (
                                write-Writes date _ _ (
                                  write-Writes newline _ _ (
                                    write-Writes (codes "connection: close" ++ newline) _ _ (
                                      headers-Writes response.headers _ _ v (
                                        write-Writes newline _ _ (
                                          write-Writes response.body _ _
                                            end-Writes)))))))))))))))))).writes
        w
