-- ===== src/Http/Router/Methods.antt =====
-- What the method router of src/ecosystem/http/server/route.rs answers.
use uringy.Common.{ℕ, ◌≡◌, refl, ◌∙◌, none, some, returns, panics, if◌then◌else◌, ◌==◌, arith}
use uringy.Common.Text.{codes}
use uringy.Http.Payload.{Text, Method, get, post, head, put, delete, connect, options, trace, patch}
use uringy.Http.Router.{
  Handler, MethodRouter, set_method, method_handler, handler_of, append_text, refuse, or_else,
}

abbrev pub method_index : Method → ℕ
method_index get = 0
method_index post = 1
method_index head = 2
method_index put = 3
method_index delete = 4
method_index connect = 5
method_index options = 6
method_index trace = 7
method_index patch = 8

-- What a method adds to the list of the allowed ones.
abbrev pub allowance : Method → Text
allowance get = codes "GET, HEAD"
allowance post = codes "POST"
allowance head = codes "HEAD"
allowance put = codes "PUT"
allowance delete = codes "DELETE"
allowance connect = codes "CONNECT"
allowance options = codes "OPTIONS"
allowance trace = codes "TRACE"
allowance patch = codes "PATCH"

module _ (S : Type 0) where
  abbrev with_handler : Method → Handler S → MethodRouter S → MethodRouter S
  with_handler get h mr = record mr { get = some h }
  with_handler post h mr = record mr { post = some h }
  with_handler head h mr = record mr { head = some h; head_derived_from_get = none }
  with_handler put h mr = record mr { put = some h }
  with_handler delete h mr = record mr { delete = some h }
  with_handler connect h mr = record mr { connect = some h }
  with_handler options h mr = record mr { options = some h }
  with_handler trace h mr = record mr { trace = some h }
  with_handler patch h mr = record mr { patch = some h }

  abbrev registered : Method → Handler S → MethodRouter S → MethodRouter S
  registered m h mr = record (with_handler m h mr) {
    allowed_methods = append_text S mr.allowed_methods (allowance m);
    other_method_allowed = some (refuse S (append_text S mr.allowed_methods (allowance m)));
  }

  set_method-registered :
      (m : Method) (h : Handler S) (mr : MethodRouter S)
      → handler_of S m mr ≡ none
      → set_method S m h mr ≡ returns (registered m h mr)
  unfolding set_method
  set_method-registered m h mr free = ground arith

  handler_of-registered :
      (m m' : Method) (h : Handler S) (mr : MethodRouter S)
      → mr.head_derived_from_get ≡ none
      → handler_of S m' (registered m h mr)
        ≡ (if method_index m' == method_index m then some h else handler_of S m' mr)
  handler_of-registered m m' h mr none_derived = ground arith

  pub again-panics :
      (m : Method) (h : Handler S) (mr : MethodRouter S) (old : Handler S)
      → handler_of S m mr ≡ some old
      → mr.head_derived_from_get ≡ none
      → set_method S m h mr ≡ panics
  unfolding set_method
  again-panics m h mr old there none_derived = ground arith

  -- Registering a handler for a method that has none succeeds. The method is then answered by it, and
  -- every other method by its own handler, or if it has none by the refusal that lists the methods
  -- registered so far and this one. A second handler for a method panics.
  pub set_method_lem :
      (m : Method) (h : Handler S) (mr : MethodRouter S)
      → handler_of S m mr ≡ none
      → mr.head_derived_from_get ≡ none
      → (mr' : MethodRouter S) × (set_method S m h mr ≡ returns mr')
        × ((m' : Method)
            → method_handler S m' mr' ≡ (
                if method_index m' == method_index m
                then some h
                else or_else
                    (handler_of S m' mr)
                    (some (refuse S (append_text S mr.allowed_methods (allowance m))))))
        × (mr'.allowed_methods ≡ append_text S mr.allowed_methods (allowance m))
        × (mr'.head_derived_from_get ≡ none)
        × ((h' : Handler S) → set_method S m h' mr' ≡ panics)
  unfolding set_method method_handler
  set_method_lem m h mr free none_derived =
      let mr' : MethodRouter S = registered m h mr in
      let same : handler_of S m mr' ≡ some h =
        handler_of-registered m m h mr none_derived ∙ ground arith in
      (
        mr',
        set_method-registered m h mr free,
        (λ m'. ground (arith, handler_of-registered m m' h mr none_derived)),
        refl,
        still_none_derived m,
        (λ h'. again-panics m h' mr' h same (still_none_derived m)),
      )
    where
      still_none_derived : (m' : Method) → (registered m' h mr).head_derived_from_get ≡ none
      still_none_derived m' = ground arith
