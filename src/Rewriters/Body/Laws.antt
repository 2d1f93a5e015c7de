-- ===== src/Rewriters/Body/Laws.antt =====
-- What the client is told when the response is rewritten.
use dockerset.Base.{
  ℕ, ◌≡◌, refl, sym, ap, ◌∙◌, inl, inr, Bool, false, List, [], ◌∷◌, ◌++◌, append_assoc, append-nil,
  ◌===◌, if◌then◌else◌, Bytes, codes, Bool-cases, All, All-append, ===_iff, ◌↔◌, ◌≢◌, ◌⊎◌, not,
  ◌&&◌, true, length, ◌==◌, some, Option-cases, arith,
}
use dockerset.Rewriters.{Headers, Detail, first_value, Regexp}
use dockerset.Rewriters.Body.{
  Told, head, part, ResponseWriter, Call, change, write_status, write_body, rewrite, write_header,
  write, call, serve_next, new_writer, is_encoded, serve_http_response, spares,
}

coded_iff :
    (vs : List Bytes)
    → ((not (length (first_value vs) == 0) && not (first_value vs === codes "identity")) ≡ true) ↔ (
        (coding : Bytes) × (codings : List Bytes) × (vs ≡ coding ∷ codings)
        × (coding ≢ [])
        × (coding ≢ codes "identity"))
unfolding first_value
coded_iff [] = ((λ h. absurd cc), λ r. let (c, cs, e, n, m) = r in absurd cc)
coded_iff ([] ∷ vs) =
    (λ h. absurd cc, λ r. let (c, cs, e, n, m) = r in let q : c ≡ [] = cc in absurd (n q))
coded_iff ((x ∷ v) ∷ vs) = (
  (λ h. (
    x ∷ v,
    vs,
    refl,
    (λ e. absurd cc),
    λ e. absurd (ground (arith, h, (===_iff (x ∷ v) (codes "identity")).1 e)),
  )),
  λ r.
      let (c, cs, e, n, m) = r in
      let q : c ≡ x ∷ v = cc in
      elim (Bool-cases (x ∷ v === codes "identity")) [
        | inl same ↦ absurd (m (q ∙ (===_iff (x ∷ v) (codes "identity")).0 same))
        | inr other ↦ ground (arith, other)
      ],
)

-- The rule has a URL and a method, and the request does not fit both.
abbrev pub IsSpared : Detail → Bytes → Bytes → Type 0
IsSpared rwt method path =
    (url : Regexp) × (rwt.url ≡ some url)
    × (rwt.method ≢ [])
    × ((rwt.method ≢ method) ⊎ (url.match_string path ≡ false))

given_iff : (s : Bytes) → (not (length s == 0) ≡ true) ↔ (s ≢ [])
given_iff [] = ((λ h. absurd cc), λ n. absurd (n refl))
given_iff (c ∷ s) = ((λ h e. absurd cc), λ n. ground arith)

unfit_iff :
    (a b : Bytes) (fits : Bool) → (not ((a === b) && fits) ≡ true) ↔ ((a ≢ b) ⊎ (fits ≡ false))
unfit_iff a b false = ((λ h. inr refl), λ n. ground arith)
unfit_iff a b true = (
  (λ h. inl (λ e. absurd (ground (arith, h, (===_iff a b).1 e)))),
  λ n. elim n [
    | inl apart ↦ elim (Bool-cases (a === b)) [
      | inl same ↦ absurd (apart ((===_iff a b).0 same))
      | inr other ↦ ground (arith, other)
    ]
    | inr wrong ↦ absurd cc
  ],
)

spares_iff :
    (rwt : Detail) (method path : Bytes)
    → (spares rwt method path ≡ true) ↔ IsSpared rwt method path
unfolding spares
spares_iff rwt method path = elim (Option-cases rwt.url) [
  | inl absent ↦ (
    (λ h. absurd (ground (arith, rw (absent, spares) at h))),
    λ r. let (url, e, n, m) = r in absurd cc,
  )
  | inr (url, e) ↦ (
    (λ h.
        let h1 : (not (length rwt.method == 0)
              && not ((rwt.method === method) && url.match_string path))
            ≡ true =
          rw (e, spares) at h in
        (
          url,
          e,
          (given_iff rwt.method).0 (ground (arith, h1)),
          (unfit_iff rwt.method method (url.match_string path)).0 (ground (arith, h1)),
        )),
    λ r.
        let (other, e1, n, m) = r in
        let same : other ≡ url = cc in
        let m1 : (rwt.method ≢ method) ⊎ (url.match_string path ≡ false) = rw same at m in
        rw (e, spares)
          (ground (
            arith,
            (given_iff rwt.method).1 n,
            (unfit_iff rwt.method method (url.match_string path)).1 m1,
          )),
  )
]

module _ {H : Type 0} (hs : Headers H) where
  -- The bytes that the calls write, in order
  abbrev pub written : List (Call H) → Bytes
  written [] = []
  written (change f ∷ cs) = written cs
  written (write_status status ∷ cs) = written cs
  written (write_body p ∷ cs) = p ++ written cs

  written-first :
      (c : Call H) (cs : List (Call H)) → written (c ∷ []) ++ written cs ≡ written (c ∷ cs)
  written-first (change f) cs = refl
  written-first (write_status status) cs = refl
  written-first (write_body p) cs = rw append-nil refl

  call-buffer :
      (c : Call H) (r : ResponseWriter H) → (call hs c r).buffer ≡ r.buffer ++ written (c ∷ [])
  unfolding call write write_header
  call-buffer (change f) r = sym (append-nil r.buffer)
  call-buffer (write_status status) r = sym (append-nil r.buffer)
  call-buffer (write_body p) r = elim (Bool-cases r.wrote_header) [
    | inl sent ↦ rw (sent, append-nil) refl
    | inr unsent ↦ rw (unsent, append-nil) refl
  ]

  serve_next-buffer :
      (cs : List (Call H)) (r : ResponseWriter H)
      → (serve_next hs cs r).buffer ≡ r.buffer ++ written cs
  unfolding serve_next
  serve_next-buffer [] r = sym (append-nil r.buffer)
  serve_next-buffer (c ∷ cs) r =
      serve_next-buffer cs (call hs c r)
      ∙ ap (λ (b : Bytes). b ++ written cs) (call-buffer c r)
      ∙ append_assoc r.buffer (written (c ∷ [])) (written cs)
      ∙ ap (λ (b : Bytes). r.buffer ++ b) (written-first c cs)

  del-values : (h : H) (k : Bytes) → hs.values (hs.del h k) k ≡ []
  del-values h k = rw ((===_iff (hs.canonical k) (hs.canonical k)).1 refl) at (hs.values_del h k k)

  del-del-values : (h : H) (j k : Bytes) → hs.values (hs.del (hs.del h j) k) j ≡ []
  del-del-values h j k = elim (Bool-cases (hs.canonical j === hs.canonical k)) [
    | inl same ↦ rw same at (hs.values_del (hs.del h j) k j)
    | inr other ↦ (rw other at (hs.values_del (hs.del h j) k j)) ∙ del-values h j
  ]

  -- A head that is told has no length, and names no time of modification unless it may.
  abbrev pub IsPlain : Bool → Told H → Type 0
  IsPlain last_modified (head status header) =
      (hs.values header (codes "Content-Length") ≡ [])
      × (last_modified ≡ false → hs.values header (codes "Last-Modified") ≡ [])
  IsPlain last_modified (part p) = ⊥

  -- A writer that has told heads of this kind only
  IsHeaded : Bool → ResponseWriter H → Type 0
  IsHeaded last_modified r = (r.last_modified ≡ last_modified) × All (IsPlain last_modified) r.told

  write_header-IsHeaded :
      (m : Bool) (status : ℕ) (r : ResponseWriter H)
      → IsHeaded m r
      → IsHeaded m (write_header hs status r)
  unfolding write_header IsHeaded
  write_header-IsHeaded m status r (same, heads) =
      let modified =
        if r.last_modified then r.header else hs.del r.header (codes "Last-Modified") in
      let plain : IsPlain m (head status (hs.del modified (codes "Content-Length"))) = (
        del-values modified (codes "Content-Length"),
        λ off.
            rw (same ∙ off)
              (del-del-values r.header (codes "Last-Modified") (codes "Content-Length")),
      ) in
      (
        same,
        All-append (IsPlain m) r.told (head status (hs.del modified (codes "Content-Length")) ∷ [])
            heads (plain, tt),
      )

  call-IsHeaded :
      (m : Bool) (c : Call H) (r : ResponseWriter H) → IsHeaded m r → IsHeaded m (call hs c r)
  unfolding call write IsHeaded
  call-IsHeaded m (change f) r h = h
  call-IsHeaded m (write_status status) r h = write_header-IsHeaded m status r h
  call-IsHeaded m (write_body p) r h = elim (Bool-cases r.wrote_header) [
    | inl sent ↦ rw sent h
    | inr unsent ↦ rw unsent (write_header-IsHeaded m 200 r h)
  ]

  serve_next-IsHeaded :
      (m : Bool) (cs : List (Call H)) (r : ResponseWriter H)
      → IsHeaded m r
      → IsHeaded m (serve_next hs cs r)
  unfolding serve_next
  serve_next-IsHeaded m [] r h = h
  serve_next-IsHeaded m (c ∷ cs) r h =
      serve_next-IsHeaded m cs (call hs c r) (call-IsHeaded m c r h)

  -- The header names an encoding other than `identity`: its first value is the one that counts.
  abbrev pub IsEncoded : H → Type 0
  IsEncoded header =
      (coding : Bytes) × (codings : List Bytes) × (hs.values header (codes "Content-Encoding")
        ≡ coding ∷ codings)
      × (coding ≢ [])
      × (coding ≢ codes "identity")

  is_encoded_iff : (header : H) → (is_encoded hs header ≡ true) ↔ IsEncoded header
  unfolding is_encoded
  is_encoded_iff header = coded_iff (hs.values header (codes "Content-Encoding"))

  -- What the client gets for the body that was written: the same where it is encoded or the request is
  -- spared, and else the one with every match replaced.
  abbrev pub IsBody : Detail → Bytes → Bytes → H → Bytes → Bytes → Type 0
  IsBody rwt method path header old new =
      ((IsEncoded header ⊎ IsSpared rwt method path) × (new ≡ old))
      ⊎ ((¬ IsEncoded header)
          × (¬ IsSpared rwt method path)
          × (new ≡ rwt.search.replace_all old rwt.replacement))

  rewrite-IsBody :
      (rwt : Detail) (method path : Bytes) (header : H) (old : Bytes)
      → is_encoded hs header ≡ false
      → IsBody rwt method path header old (rewrite rwt method path old)
  unfolding rewrite
  rewrite-IsBody rwt method path header old plain = elim (Bool-cases (spares rwt method path)) [
    | inl spared ↦ inl (inr ((spares_iff rwt method path).0 spared), rw spared refl)
    | inr meant ↦ inr (
      (λ e. let no : true ≡ false = sym ((is_encoded_iff header).1 e) ∙ plain in absurd cc),
      (λ e. let no : true ≡ false = sym ((spares_iff rwt method path).1 e) ∙ meant in absurd cc),
      rw meant refl,
    )
  ]

  -- In stage `response` the client is told heads, none of which has a length, or a time of
  -- modification unless these are let through, and after them one body. It is all that the next
  -- handler wrote, in order: as it is where the first Content-Encoding of the header is then
  -- neither empty nor `identity`, or where the rule has a URL and a method and the request does not
  -- fit both; and else with the matches of the rule replaced.
  pub serve_http_response-written :
      (rwt : Detail) (last_modified : Bool) (method path : Bytes) (header : H)
      (calls : List (Call H))
      → (heads : List (Told H)) × (body : Bytes) × All (IsPlain last_modified) heads
        × IsBody rwt method path
            (serve_next hs calls (new_writer hs last_modified header)).header
            (written calls)
            body
        × (serve_http_response hs rwt last_modified method path header calls
            ≡ heads ++ (part body ∷ []))
  unfolding serve_http_response IsHeaded
  serve_http_response-written rwt m method path header calls =
      let wrapped = serve_next hs calls (new_writer hs m header) in
      let told = serve_next-IsHeaded m calls (new_writer hs m header) (refl, tt) in
      let buffer = serve_next-buffer calls (new_writer hs m header) in
      elim (Bool-cases (is_encoded hs wrapped.header)) [
        | inl encoded ↦ (
          wrapped.told,
          written calls,
          told.1,
          inl (inl ((is_encoded_iff wrapped.header).0 encoded), refl),
          rw (encoded, buffer) refl,
        )
        | inr plain ↦ (
          wrapped.told,
          rewrite rwt method path (written calls),
          told.1,
          rewrite-IsBody rwt method path wrapped.header (written calls) plain,
          rw (plain, buffer) refl,
        )
      ]
