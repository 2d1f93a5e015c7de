-- ===== src/Tests/Rewriters.antt =====
-- A proxy that puts a text in front of what it rewrites, with a header as a function.
use dockerset.Base.{
  ◌≡◌, refl, true, false, List, [], ◌∷◌, ◌++◌, some, Bytes, codes, ◌===◌, if◌then◌else◌, All,
}
use dockerset.Rewriters.{Headers, first_value, Regexp, Detail}
use dockerset.Rewriters.Header.{fits, modify_request}
use dockerset.Rewriters.Body.{
  Told, part, Call, write_body, serve_next, new_writer, serve_http_response, serve_http_request,
}
use dockerset.Rewriters.Body.Laws.{written, IsPlain, serve_http_response-written, IsBody}

abbrev Table : Type 0
Table = Bytes → List Bytes

abbrev table_headers : Headers Table
table_headers = record {
  canonical = λ k. k;
  values = λ h k. h k;
  del = λ h k j. if j === k then [] else h j;
  add = λ h k v j. if j === k then h j ++ (v ∷ []) else h j;
  values_del = λ h k j. refl;
  values_add = λ h k v j. refl;
}

abbrev pattern_of : Regexp
pattern_of = record { match_string = λ s. true; replace_all = λ s r. r ++ s }

abbrev detail : Detail
detail = record {
  url = some pattern_of;
  stage = codes "request";
  method = codes "GET";
  header = codes "Host";
  search = pattern_of;
  replacement = codes "x";
}

abbrev table : Table
table k = if k === codes "Host" then codes "a" ∷ codes "b" ∷ [] else codes "1" ∷ []

abbrev path : Bytes
path = codes "/p"

both_rewritten :
    modify_request table_headers detail (codes "GET") path table (codes "Host")
    ≡ codes "xa" ∷ codes "xb" ∷ []
unfolding modify_request fits ◌===◌ first_value
both_rewritten = refl

abbrev calls : List (Call Table)
calls = write_body (codes "h") ∷ write_body (codes "i") ∷ []

abbrev plain_table : Table
plain_table k = []

rewritten_once :
    (serve_next table_headers calls (new_writer table_headers false plain_table)).buffer
    ≡ codes "hi"
unfolding serve_next ◌===◌
rewritten_once = refl

request_rewritten :
    serve_http_request detail
      (codes "GET")
      path
      (some (codes "hi"))
      (record { body = []; content_length = some 2 })
    ≡ record { body = codes "xhi"; content_length = some 3 }
unfolding serve_http_request ◌===◌
request_rewritten = refl

serve_http_response-written_example :
    (heads : List (Told Table)) × (body : Bytes) × All (IsPlain table_headers false) heads
    × IsBody table_headers detail
        (codes "GET")
        path
        (serve_next table_headers calls (new_writer table_headers false plain_table)).header
        (written table_headers calls)
        body
    × (serve_http_response table_headers detail false (codes "GET") path plain_table calls
        ≡ heads ++ (part body ∷ []))
serve_http_response-written_example =
    serve_http_response-written table_headers detail false (codes "GET") path plain_table calls
