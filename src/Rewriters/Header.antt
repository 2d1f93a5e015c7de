-- ===== src/Rewriters/Header.antt =====
-- `modifyRequest` and `modifyResponse` of rewrite_http_header/rewriter/main.go.
pub mod Laws
use dockerset.Base.{
  ℕ, ◌≡◌, Bool, true, false, not, ◌&&◌, List, [], ◌∷◌, Option, none, some, ◌===◌, if◌then◌else◌,
  Bytes, codes, length, ◌==◌, arith, ◌+◌,
}
use dockerset.Rewriters.{Headers, first_value, Regexp, Detail}

-- `rwt.method != "" && rwt.url != nil`, and that both fit the request
unfoldable pub fits : Detail → Bytes → Bytes → Bool
unfolding ◌===◌
fits rwt method path =
    not (length rwt.method == 0)
    && (elim rwt.url [ none ↦ false | some url ↦ (rwt.method === method) && url.match_string path ])

module _ {H : Type 0} (hs : Headers H) where
  -- The loop that adds the rewritten values
  unfoldable pub add_rewritten : Regexp → Bytes → Bytes → List Bytes → H → H
  add_rewritten search replacement name [] header = header
  add_rewritten search replacement name (value ∷ values) header =
      add_rewritten search replacement name values
        (hs.add header name (search.replace_all value replacement))

  unfoldable pub modify : Detail → Bytes → Bytes → H → H
  unfolding add_rewritten fits first_value
  modify rwt method path header =
      let values = hs.values header rwt.header in
      if fits rwt method path
      then if length (first_value values) == 0
        then header
        else add_rewritten rwt.search rwt.replacement rwt.header values (hs.del header rwt.header)
      else header

  unfoldable pub modify_request : Detail → Bytes → Bytes → H → H
  unfolding modify ◌===◌
  modify_request rwt method path header =
      if rwt.stage === codes "request" then modify rwt method path header else header

  unfoldable pub modify_response : Detail → Bytes → Bytes → H → H
  unfolding modify ◌===◌
  modify_response rwt method path header =
      if rwt.stage === codes "response" then modify rwt method path header else header
