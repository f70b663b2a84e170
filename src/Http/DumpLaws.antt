-- ===== src/Http/DumpLaws.antt =====
-- What the printed messages of saturn/http/http.cc do not depend on.
use saturn.Base.{
  ℕ, ◌≡◌, refl, ap, inl, inr, true, List, [], ◌∷◌, ◌++◌, strcasecmp, bytes, if◌then◌else◌,
}
use saturn.Http.Fields.{MapType, same_key, assign}
use saturn.Http.FieldLaws.{same_key_sym, same_key_trans, same_of_eq, Ordering-cases}
use saturn.Http.Messages.{
  HttpRequest, HttpResponse, connection, dump_headers, dump_request, dump_response, dump_body,
  dump_request_line, dump_status_line, dump_connection, set_header, set_response_header,
}

dump_headers-assign :
    (sep key val : List ℕ) (m : MapType)
    → same_key key connection ≡ true
    → dump_headers sep (assign key val m) ≡ dump_headers sep m
unfolding dump_headers assign
dump_headers-assign sep key val [] h = rw h refl
dump_headers-assign sep key val ((j, v) ∷ m) h = elim (Ordering-cases (strcasecmp key j)) [
  | inl e ↦ rw (e, assign) (rw h refl)
  | inr (inl e) ↦
      let k : same_key j connection ≡ true =
        same_key_trans j key connection (same_key_sym key j (same_of_eq key j e)) h in
      rw (e, assign) (rw k refl)
  | inr (inr e) ↦
      rw (e, assign)
        (ap (λ t. (if same_key j connection then [] else j ++ (sep ++ (v ++ 13 ∷ 10 ∷ []))) ++ t)
          (dump_headers-assign sep key val m h))
]

-- Setting the connection header, in any spelling, changes nothing of a printed request or response: the
-- line of the connection comes from `m_close` alone.
pub dump_connection_header :
    (key val : List ℕ) (q : HttpRequest) (p : HttpResponse)
    → same_key key connection ≡ true
    → (dump_request (set_header key val q) ≡ dump_request q)
      × (dump_response (set_response_header key val p) ≡ dump_response p)
unfolding dump_request dump_response set_header set_response_header dump_request_line
    dump_status_line
dump_connection_header key val q p h = (
  ap (λ t. dump_request_line q ++ (dump_connection q.close ++ (t ++ dump_body q.body)))
      (dump_headers-assign (bytes ":") key val q.headers h),
  ap (λ t. dump_status_line p ++ (t ++ (dump_connection p.close ++ dump_body p.body)))
      (dump_headers-assign (bytes ": ") key val p.headers h),
)
