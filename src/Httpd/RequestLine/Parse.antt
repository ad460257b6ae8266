-- ===== src/Httpd/RequestLine/Parse.antt =====
-- What the parse of a request line comes to.
use tiny_http.Prelude.{
  ℕ, ◌+◌, ◌-◌, ◌<◌, ◌≤◌, ◌≡◌, ◌≢◌, ◌↔◌, inl, inr, refl, subst, Bool, true, false, [], ◌∷◌, ◌++◌,
  append_assoc, Bytes, length, length-append, Option, some, none, done, timeout, ◌>>=◌, >>=-eq-done,
  >>=-ne-timeout, arith, Bool-cases, ◌||◌, ◌==◌, if◌then◌else◌, codes,
}
use tiny_http.Libc.{Buf, c_string, is_space, same_string, ends_with}
use tiny_http.Libc.Laws.{Lacks, same_string_iff}
use tiny_http.Httpd.RequestLine.{
  Token, copy_method, skip_spaces, copy_url, split_query, path_of, Request, get_request,
  post_request, request_of, parse_url, parse_request,
}
use tiny_http.Httpd.RequestLine.Tokens.{
  IsWord, c_string-IsWord, copy_method-IsWord, copy_url-IsWord, skip_spaces-one, HasLine-append,
  copy_method_total, skip_spaces_total, copy_url_total, copy_url_none, copy_url-length, HasLine,
  copy_method-ne-timeout, skip_spaces-ne-timeout, copy_url-ne-timeout,
}

-- A URL with a '?' is cut there, and the rest is the query; it asks for a script.
pub split_query-marked :
    (path query : Bytes)
    → Lacks b'?' path
    → split_query (path ++ b'?' ∷ query) ≡ record { url = path; query = query; marked = true }
unfolding split_query
split_query-marked [] query h = refl
split_query-marked (b ∷ path) query h = ground (arith, split_query-marked path query h.1)

pub split_query-plain :
    (url : Bytes)
    → Lacks b'?' url
    → split_query url ≡ record { url = url; query = []; marked = false }
unfolding split_query
split_query-plain [] h = refl
split_query-plain (b ∷ url) h = ground (arith, split_query-plain url h.1)

split_query-length :
    (url : Bytes)
    → (length (split_query url).url ≤ length url) × (length (split_query url).query ≤ length url)
unfolding split_query
split_query-length [] = omega arith
split_query-length (b ∷ url) = ground (arith, split_query-length url)

length-path_of : (url : Bytes) → length (path_of url) ≤ length url + 13
unfolding path_of
length-path_of url = ground (
  arith,
  length-append (codes "etc") url,
  length-append (codes "etc" ++ url) (codes "index.html"),
)

ends_with-append : (c x : ℕ) (s : Bytes) → ends_with c (s ++ x ∷ []) ≡ (x == c)
unfolding ends_with
ends_with-append c x [] = refl
ends_with-append c x (a ∷ []) = refl
ends_with-append c x (a ∷ b ∷ s) = ends_with-append c x (b ∷ s)

path_of_page : (url : Bytes) → ends_with b'/' (path_of url) ≡ false
unfolding path_of
path_of_page url = elim (Bool-cases (ends_with b'/' (codes "etc" ++ url))) [
  | inr other ↦ rw (other, other) refl
  | inl slash ↦
      rw
        (
          slash,
          ← append_assoc (codes "etc" ++ url) (codes "index.htm") (codes "l"),
          ends_with-append b'/' b'l' ((codes "etc" ++ url) ++ codes "index.htm"),
        )
        refl
]

-- What holds of every request that the parse returns: the strings fit into the arrays `path` (512
-- bytes) and `url` (255 bytes), the path names no directory by a '/' at its end, and a query
-- pointer is there exactly for GET.
pub record IsRequest (r : Request) : Type 0 where
  pub path_fits : length r.path < 512
  pub path_page : ends_with b'/' r.path ≡ false
  pub method_is : r.method ≡ (if r.is_get then codes "GET" else codes "POST")
  pub query_fits : (q : Bytes) → r.query ≡ some q → length q < 255
  pub query_iff : (r.query ≡ none) ↔ (r.is_get ≡ false)
  pub post_cgi : r.is_get ≡ false → r.cgi ≡ true

get_request-IsRequest : (url : Bytes) → length url ≤ 254 → IsRequest (get_request url)
unfolding get_request
get_request-IsRequest url h = record {
  path_fits = omega (arith, length-path_of (split_query url).url, split_query-length url);
  path_page = path_of_page (split_query url).url;
  method_is = refl;
  query_fits = λ q e. let k = (split_query-length url).1 in ground (arith, k);
  query_iff = (λ e. cc, λ e. cc);
  post_cgi = λ e. cc;
}

post_request-IsRequest : (url : Bytes) → length url ≤ 254 → IsRequest (post_request url)
unfolding post_request
post_request-IsRequest url h = record {
  path_fits = omega (arith, length-path_of url);
  path_page = path_of_page url;
  method_is = refl;
  query_fits = λ q e. cc;
  query_iff = (λ e. refl, λ e. refl);
  post_cgi = λ e. refl;
}

length-c_string : (s : Bytes) → length (c_string s) ≤ length s
unfolding c_string
length-c_string [] = omega arith
length-c_string (b ∷ s) = ground (arith, length-c_string s)

request_of-IsRequest :
    (is_get : Bool) (url : Bytes) → length url ≤ 254 → IsRequest (request_of is_get url)
unfolding request_of
request_of-IsRequest true url h = get_request-IsRequest url h
request_of-IsRequest false url h = post_request-IsRequest url h

parse_url-IsRequest :
    (is_get : Bool) (buf : Buf) (numchars : ℕ) (m : Token) {r : Request}
    → parse_url is_get buf numchars m ≡ done (some r)
    → IsRequest r
unfolding parse_url
parse_url-IsRequest is_get buf numchars m {r} e =
    let (at_url, _, f) =
      >>=-eq-done (skip_spaces m.after)
        (λ at_url. copy_url 254 (numchars - (length buf - length at_url)) at_url >>= λ u.
          done (some (request_of is_get (c_string u.text))))
        e in
    let (u, eu, g) =
      >>=-eq-done (copy_url 254 (numchars - (length buf - length at_url)) at_url)
        (λ u. done (some (request_of is_get (c_string u.text)))) f in
    let same : request_of is_get (c_string u.text) ≡ r = cc in
    subst IsRequest same (
      request_of-IsRequest is_get (c_string u.text) (
        omega (
          arith,
          copy_url-length 254 (numchars - (length buf - length at_url)) at_url eu,
          length-c_string u.text,
        )))

-- Every request that the parse returns fits its arrays: the path is shorter than 512 bytes and does
-- not end in '/', the query is shorter than 255 bytes and there exactly for GET, and POST always
-- asks for a script.
pub parse_request-IsRequest :
    (buf : Buf) (numchars : ℕ) {r : Request}
    → parse_request buf numchars ≡ done (some r)
    → IsRequest r
unfolding parse_request
parse_request-IsRequest buf numchars {r} e =
    let (m, em, f) =
      >>=-eq-done (copy_method 254 buf)
        (λ m.
          if same_string (c_string m.text) (codes "GET")
            || same_string (c_string m.text) (codes "POST")
          then parse_url (same_string (c_string m.text) (codes "GET")) buf numchars m
          else done none)
        e in
    elim (Bool-cases (
      same_string (c_string m.text) (codes "GET")
      || same_string (c_string m.text) (codes "POST"))) [
        | inl known ↦
            parse_url-IsRequest (same_string (c_string m.text) (codes "GET")) buf numchars m
              (rw known at f)
        | inr unknown ↦ let f' = rw unknown at f in cc
      ]

parse_url_total :
    (is_get : Bool) (body rest : Bytes) (m : Token)
    → HasLine (length rest) m.after
    → (r : Option Request) × (parse_url is_get (body ++ b'\n' ∷ 0 ∷ rest) (length body + 1) m
        ≡ done r)
unfolding parse_url
parse_url_total is_get body rest m h =
    let buf = body ++ b'\n' ∷ 0 ∷ rest in
    let (at_url, ea, k) = skip_spaces_total h in
    elim k [
      | inl inside ↦
          let (u, eu) =
            copy_url_total 254 (length body + 1 - (length buf - length at_url)) inside in
          (some (request_of is_get (c_string u.text)), rw (ea, eu) refl)
      | inr past ↦
          let (u, eu) = copy_url_none 254 at_url past in
          let nothing : length body + 1 - (length buf - length at_url) ≡ 0 =
            omega (arith, past, length-append body (b'\n' ∷ 0 ∷ rest)) in
          (some (request_of is_get (c_string u.text)), rw (ea, nothing, eu) refl)
    ]

-- The parse of a buffer that holds a line ending in LF, and a NUL behind it, stays inside the
-- buffer and returns, whatever the line holds.
pub parse_request_total :
    (body rest : Bytes)
    → (r : Option Request) × (parse_request (body ++ b'\n' ∷ 0 ∷ rest) (length body + 1) ≡ done r)
unfolding parse_request
parse_request_total body rest =
    let (m, em, h) = copy_method_total 254 (HasLine-append body rest) in
    let (r, er) = parse_url_total (same_string (c_string m.text) (codes "GET")) body rest m h in
    elim (Bool-cases (
      same_string (c_string m.text) (codes "GET")
      || same_string (c_string m.text) (codes "POST"))) [
        | inl known ↦ (r, rw (em, known) er)
        | inr unknown ↦ (none, rw (em, unknown) refl)
      ]

-- A request line with a method word, a URL and something behind it.
abbrev pub request_line : Bytes → Bytes → Bytes → Bytes
request_line method url more = method ++ b' ' ∷ (url ++ b' ' ∷ more)

parse_url-IsWord :
    (is_get : Bool) (method url more : Bytes) (numchars : ℕ) (text : Bytes)
    → IsWord url
    → url ≢ []
    → length url ≤ 254
    → length method + 1 + length url ≤ numchars
    → parse_url is_get
        (request_line method url more)
        numchars
        (record { text = text; after = b' ' ∷ (url ++ b' ' ∷ more) })
      ≡ done (some (request_of is_get url))
unfolding parse_url is_space
parse_url-IsWord is_get method url more numchars text w n h k =
    let room : length url
        ≤ numchars - (length (request_line method url more) - length (url ++ b' ' ∷ more)) =
      omega (arith, length-append method (b' ' ∷ (url ++ b' ' ∷ more))) in
    rw
      (
        skip_spaces-one url b' ' more w n,
        copy_url-IsWord 254 _ url b' ' more w refl h room,
        c_string-IsWord url w,
      )
      refl

-- A request line of the method GET.
pub parse_request-get :
    (url more : Bytes) (numchars : ℕ)
    → IsWord url
    → url ≢ []
    → length url ≤ 254
    → length url + 4 ≤ numchars
    → parse_request (request_line (codes "GET") url more) numchars ≡ done (some (get_request url))
unfolding parse_request request_of is_space same_string c_string
parse_request-get url more numchars w n h k =
    rw (copy_method-IsWord 254 (codes "GET") b' ' (url ++ b' ' ∷ more) word refl (omega arith))
      (parse_url-IsWord true (codes "GET") url more numchars (codes "GET") w n h (omega arith))
  where
    word : IsWord (codes "GET")
    word = (refl, omega arith, (refl, omega arith, (refl, omega arith, tt)))

pub parse_request-post :
    (url more : Bytes) (numchars : ℕ)
    → IsWord url
    → url ≢ []
    → length url ≤ 254
    → length url + 5 ≤ numchars
    → parse_request (request_line (codes "POST") url more) numchars ≡ done (some (post_request url))
unfolding parse_request request_of is_space same_string c_string
parse_request-post url more numchars w n h k =
    rw (copy_method-IsWord 254 (codes "POST") b' ' (url ++ b' ' ∷ more) word refl (omega arith))
      (parse_url-IsWord false (codes "POST") url more numchars (codes "POST") w n h (omega arith))
  where
    word : IsWord (codes "POST")
    word = (refl, omega arith, (refl, omega arith, (refl, omega arith, (refl, omega arith, tt))))

-- A method word other than GET and POST is not taken.
pub parse_request_unknown :
    (method more : Bytes) (numchars : ℕ)
    → IsWord method
    → length method ≤ 254
    → method ≢ codes "GET"
    → method ≢ codes "POST"
    → parse_request (method ++ b' ' ∷ more) numchars ≡ done none
unfolding parse_request is_space
parse_request_unknown method more numchars w h g p =
    let not_get : same_string method (codes "GET") ≡ false =
      ground (arith, same_string_iff method (codes "GET")) in
    let not_post : same_string method (codes "POST") ≡ false =
      ground (arith, same_string_iff method (codes "POST")) in
    rw
      (
        copy_method-IsWord 254 method b' ' more w refl h,
        c_string-IsWord method w,
        not_get,
        not_post,
      )
      refl

parse_url-ne-timeout :
    (is_get : Bool) (buf : Buf) (numchars : ℕ) (m : Token)
    → parse_url is_get buf numchars m ≢ timeout
unfolding parse_url
parse_url-ne-timeout is_get buf numchars m =
    >>=-ne-timeout (skip_spaces m.after) _ (skip_spaces-ne-timeout m.after) λ at_url _.
      >>=-ne-timeout (copy_url 254 (numchars - (length buf - length at_url)) at_url) _
        (copy_url-ne-timeout 254 _ at_url) λ u _ e. cc

pub parse_request-ne-timeout : (buf : Buf) (numchars : ℕ) → parse_request buf numchars ≢ timeout
unfolding parse_request
parse_request-ne-timeout buf numchars =
    >>=-ne-timeout (copy_method 254 buf) _ (copy_method-ne-timeout 254 buf) λ m _.
      ground
        (arith, parse_url-ne-timeout (same_string (c_string m.text) (codes "GET")) buf numchars m)
