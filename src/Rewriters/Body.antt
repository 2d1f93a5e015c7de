-- ===== src/Rewriters/Body.antt =====
-- `RewriteBody` and `ResponseWriter` of rewrite_http_body/rewriter/main.go. What the next handler
-- does is an argument: the calls that it makes on the writer, or the answer to a request.
pub mod Laws
use dockerset.Base.{
  ℕ, ◌≡◌, Bool, true, false, not, ◌&&◌, List, [], ◌∷◌, ◌++◌, Option, none, some, ◌===◌,
  if◌then◌else◌, Bytes, codes, length, ◌==◌, arith,
}
use dockerset.Rewriters.{Headers, first_value, Regexp, Detail}

-- What the wrapped `http.ResponseWriter` is told: a status with the header as it is then, or a part of
-- the body
pub data Told (H : Type 0) : Type 0 where
  head : ℕ → H → Told H
  part : Bytes → Told H

-- `ResponseWriter`, with the header and the calls of the writer that it wraps
pub record ResponseWriter (H : Type 0) : Type 0 where
  pub buffer : Bytes
  pub last_modified : Bool
  pub wrote_header : Bool
  pub header : H
  pub told : List (Told H)

-- A call that the next handler makes: it changes the header, or calls `WriteHeader` or `Write`.
pub data Call (H : Type 0) : Type 0 where
  change : (H → H) → Call H
  write_status : ℕ → Call H
  write_body : Bytes → Call H

abbrev pub status_ok : ℕ
status_ok = 200

-- `rwt.method` and `rwt.url` are given and do not fit the request.
unfoldable pub spares : Detail → Bytes → Bytes → Bool
unfolding ◌===◌
spares rwt method path = not (length rwt.method == 0) && (elim rwt.url [
  | none ↦ false
  | some url ↦ not ((rwt.method === method) && url.match_string path)
])

-- The body that goes on, from the body that came
unfoldable pub rewrite : Detail → Bytes → Bytes → Bytes → Bytes
unfolding spares
rewrite rwt method path body =
    if spares rwt method path then body else rwt.search.replace_all body rwt.replacement

module _ {H : Type 0} (hs : Headers H) where
  unfoldable pub write_header : ℕ → ResponseWriter H → ResponseWriter H
  write_header status r =
      let modified =
        if r.last_modified then r.header else hs.del r.header (codes "Last-Modified") in
      let header = hs.del modified (codes "Content-Length") in
      record r { wrote_header = true; header = header; told = r.told ++ (head status header ∷ []) }

  unfoldable pub write : Bytes → ResponseWriter H → ResponseWriter H
  unfolding write_header
  write p r =
      let ready = if r.wrote_header then r else write_header status_ok r in
      record ready { buffer = ready.buffer ++ p }

  unfoldable pub call : Call H → ResponseWriter H → ResponseWriter H
  unfolding write_header write
  call (change f) r = record r { header = f r.header }
  call (write_status status) r = write_header status r
  call (write_body p) r = write p r

  unfoldable pub serve_next : List (Call H) → ResponseWriter H → ResponseWriter H
  unfolding call
  serve_next [] r = r
  serve_next (c ∷ cs) r = serve_next cs (call c r)

  abbrev pub new_writer : Bool → H → ResponseWriter H
  new_writer last_modified header = record {
    buffer = [];
    last_modified = last_modified;
    wrote_header = false;
    header = header;
    told = [];
  }

  -- `contentEncoding != "" && contentEncoding != "identity"`
  unfoldable pub is_encoded : H → Bool
  unfolding ◌===◌ first_value
  is_encoded header =
      let encoding = first_value (hs.values header (codes "Content-Encoding")) in
      not (length encoding == 0) && not (encoding === codes "identity")

  -- What the client's writer, with this header at first, is told
  unfoldable pub serve_http_response :
      Detail → Bool → Bytes → Bytes → H → List (Call H) → List (Told H)
  unfolding serve_next is_encoded rewrite
  serve_http_response rwt last_modified method path header calls =
      let wrapped = serve_next calls (new_writer last_modified header) in
      if is_encoded wrapped.header
      then wrapped.told ++ (part wrapped.buffer ∷ [])
      else wrapped.told ++ (part (rewrite rwt method path wrapped.buffer) ∷ [])

-- A request as the next handler finds it: what is left to read of the body, and `ContentLength`,
-- which is -1 for none
pub record Request : Type 0 where
  pub body : Bytes
  pub content_length : Option ℕ

-- The request that the next handler is given. `body` is none where `ReadAll` fails, and `left` is what
-- is then left to read.
unfoldable pub serve_http_request : Detail → Bytes → Bytes → Option Bytes → Request → Request
unfolding rewrite
serve_http_request rwt method path none left = left
serve_http_request rwt method path (some body) left =
    let new = rewrite rwt method path body in
    record { body = new; content_length = some (length new) }
