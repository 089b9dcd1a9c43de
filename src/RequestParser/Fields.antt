-- ===== src/RequestParser/Fields.antt =====
-- What the parser knows of the uri, the headers and the version in each state.
use web_server_development.Prelude.{
  ℕ, true, [], ◌∷◌, ◌++◌, ◌≡◌, ◌≢◌, Result, ok, Result-cases, append_assoc, arith, all, All,
  all-concat, Bool-cases, inl, inr,
}
use web_server_development.Text.{Bytes, codes, is_empty, push_back}
use web_server_development.StdMap.Laws.{IsSorted, insert-IsSorted, All-insert}
use web_server_development.Request.{Request}
use web_server_development.RequestParser.{
  State, method_start, method, uri, http_version_h, http_version_t_1, http_version_t_2,
  http_version_p, http_version_slash, http_version_major_start, http_version_major,
  http_version_minor_start, http_version_minor, header_line_start, header_lws, header_name,
  header_value, expecting_newline_3, Parser, Consumed, good, indeterminate, is_digit, consume_in,
  commit_header,
}
use web_server_development.RequestParser.WellFormed.{
  is_uri_byte, is_value_byte, is_token_byte, IsDigits, IsVersion, IsHeader,
}

-- The version so far
abbrev pub VersionInv : State → Bytes → Type 0
VersionInv method_start v = v ≡ []
VersionInv method v = v ≡ []
VersionInv uri v = v ≡ []
VersionInv http_version_h v = v ≡ []
VersionInv http_version_t_1 v = v ≡ codes "H"
VersionInv http_version_t_2 v = v ≡ codes "HT"
VersionInv http_version_p v = v ≡ codes "HTT"
VersionInv http_version_slash v = v ≡ codes "HTTP"
VersionInv http_version_major_start v = v ≡ codes "HTTP/"
VersionInv http_version_major v = (major : Bytes) × (v ≡ codes "HTTP/" ++ major) × IsDigits major
VersionInv http_version_minor_start v =
    (major : Bytes) × (v ≡ codes "HTTP/" ++ (major ++ (b'.' ∷ []))) × IsDigits major
VersionInv _ v = IsVersion v

-- What `consume` leaves in `q` and `p`, unless it refuses the byte
abbrev pub Leaves : (Request → Parser → Type 0) → Result Consumed → Type 0
Leaves P (ok (indeterminate, q, p)) = P q p
Leaves P (ok (good, q, p)) = P q p
Leaves P _ = Unit

abbrev pub UriInv : Request → Parser → Type 0
UriInv q p = all is_uri_byte q.uri ≡ true

pub consume_in-UriInv :
    (s : State) (q : Request) (p : Parser) (c : ℕ) → UriInv q p → Leaves UriInv (consume_in s q p c)
unfolding consume_in commit_header
consume_in-UriInv uri q p c h = ground (arith, all-concat is_uri_byte q.uri c)
consume_in-UriInv _ q p c h = ground arith

pub record HeadersInv (q : Request) (p : Parser) : Type 0 where
  pub headers : All IsHeader q.headers
  pub sorted : IsSorted q.headers
  pub key : all is_token_byte p.header_key ≡ true
  pub val : all is_value_byte p.header_val ≡ true

commit_header-HeadersInv :
    (q : Request) (p : Parser) {q' : Request} {p' : Parser}
    → HeadersInv q p
    → commit_header q p ≡ ok (q', p')
    → HeadersInv q' p'
unfolding commit_header
commit_header-HeadersInv q p h e = elim (Bool-cases (is_empty p.header_key)) [
  | inl blank ↦ ground (arith, h)
  | inr named ↦ ground (
    arith,
    h,
    All-insert IsHeader p.header_key p.header_val q.headers,
    insert-IsSorted p.header_key p.header_val q.headers,
  )
]

pub consume_in-HeadersInv :
    (s : State) (q : Request) (p : Parser) (c : ℕ)
    → HeadersInv q p
    → Leaves HeadersInv (consume_in s q p c)
unfolding consume_in
consume_in-HeadersInv header_line_start q p c h = elim (Result-cases (commit_header q p)) [
  | inl (e, failed) ↦ rw (failed, consume_in) (ground arith)
  | inr ((q', p'), done) ↦ ground (arith, done, commit_header-HeadersInv q p h done)
]
consume_in-HeadersInv header_name q p c h =
    ground (arith, h, all-concat is_token_byte p.header_key c)
consume_in-HeadersInv header_lws q p c h =
    ground (arith, h, all-concat is_value_byte p.header_val c)
consume_in-HeadersInv header_value q p c h =
    ground (arith, h, all-concat is_value_byte p.header_val c)
consume_in-HeadersInv expecting_newline_3 q p c h = elim (Result-cases (commit_header q p)) [
  | inl (e, failed) ↦ rw (failed, consume_in) tt
  | inr ((q', p'), done) ↦ ground (arith, done, commit_header-HeadersInv q p h done)
]
consume_in-HeadersInv _ q p c h = ground (arith, h)

abbrev pub StateVersionInv : Request → Parser → Type 0
StateVersionInv q p = VersionInv p.state q.version

concat-ne-nil : (xs : Bytes) (y : ℕ) → xs ++ y ∷ [] ≢ []
concat-ne-nil [] y e = cc
concat-ne-nil (x ∷ xs) y e = cc

IsDigits-concat : (s : Bytes) (c : ℕ) → IsDigits s → is_digit c ≡ true → IsDigits (push_back s c)
IsDigits-concat s c (ne, h) d = (concat-ne-nil s c, ground (arith, h, all-concat is_digit s c))

major_begins :
    (v : Bytes) (c : ℕ)
    → v ≡ codes "HTTP/"
    → is_digit c ≡ true
    → VersionInv http_version_major (push_back v c)
major_begins v c e d = (c ∷ [], rw e, ((λ n. cc), ground arith))

major_grows :
    (v : Bytes) (c : ℕ)
    → VersionInv http_version_major v
    → is_digit c ≡ true
    → VersionInv http_version_major (push_back v c)
major_grows v c (major, e, h) d = (push_back major c, rw e, IsDigits-concat major c h d)

major_ends :
    (v : Bytes)
    → VersionInv http_version_major v
    → VersionInv http_version_minor_start (push_back v b'.')
major_ends v (major, e, h) = (major, rw e, h)

minor_begins :
    (v : Bytes) (c : ℕ)
    → VersionInv http_version_minor_start v
    → is_digit c ≡ true
    → IsVersion (push_back v c)
minor_begins v c (major, e, h) d = record {
  major = major;
  minor = c ∷ [];
  version_is = rw e (simp append_assoc);
  major_IsDigits = h;
  minor_IsDigits = ((λ n. cc), ground arith);
}

minor_grows : (v : Bytes) (c : ℕ) → IsVersion v → is_digit c ≡ true → IsVersion (push_back v c)
minor_grows v c i d = record {
  major = i.major;
  minor = push_back i.minor c;
  version_is = rw i.version_is (simp append_assoc);
  major_IsDigits = i.major_IsDigits;
  minor_IsDigits = IsDigits-concat i.minor c i.minor_IsDigits d;
}

pub consume_in-VersionInv :
    (s : State) (q : Request) (p : Parser) (c : ℕ)
    → p.state ≡ s
    → VersionInv s q.version
    → Leaves StateVersionInv (consume_in s q p c)
unfolding consume_in commit_header
consume_in-VersionInv http_version_major_start q p c e h =
    ground (arith, major_begins q.version c h)
consume_in-VersionInv http_version_major q p c e h =
    ground (arith, h, major_grows q.version c h, major_ends q.version h)
consume_in-VersionInv http_version_minor_start q p c e h =
    ground (arith, h, minor_begins q.version c h)
consume_in-VersionInv http_version_minor q p c e h = ground (arith, h, minor_grows q.version c h)
consume_in-VersionInv _ q p c e h = ground (arith, h)
