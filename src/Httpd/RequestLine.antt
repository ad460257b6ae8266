-- ===== src/Httpd/RequestLine.antt =====
-- How `accept_request` of version_01/httpd.c takes the request line apart.
pub mod Tokens
pub mod Parse
use tiny_http.Prelude.{
  ℕ, zero, suc, ◌+◌, ◌-◌, Bool, true, false, List, [], ◌∷◌, ◌++◌, Option, none, some, Bytes, length,
  Run, done, fault, timeout, ◌>>=◌, ◌==◌, if◌then◌else◌, ◌||◌, ◌&&◌, codes,
}
use tiny_http.Libc.{Buf, c_string, is_space, same_string, ends_with}

-- A token copied out of `buf`, and the part of `buf` that `i` has not passed.
pub record Token : Type 0 where
  pub text : Bytes
  pub after : Buf

-- `while (!isspace(buf[i]) && j < sizeof(method) - 1) method[j++] = buf[i++];`: `room` is what `j`
-- has left, and the list is `buf` from `i` on.
unfoldable pub copy_method : ℕ → Buf → Run Token
copy_method room [] = fault
copy_method zero (c ∷ cs) = done (record { text = []; after = c ∷ cs })
copy_method (suc room) (c ∷ cs) =
    let next = (do t ← copy_method room cs; done (record t { text = c ∷ t.text })) in
    if is_space c then done (record { text = []; after = c ∷ cs }) else next

-- `while (isspace(buf[i])) i++;`
unfoldable pub skip_spaces : Buf → Run Buf
skip_spaces [] = fault
skip_spaces (c ∷ cs) = let next = skip_spaces cs in if is_space c then next else done (c ∷ cs)

-- The same copy for `url`, with the further test `i < numchars`: `left` is `numchars - i`.
unfoldable pub copy_url : ℕ → ℕ → Buf → Run Token
copy_url room left [] = fault
copy_url zero left (c ∷ cs) = done (record { text = []; after = c ∷ cs })
copy_url (suc room) zero (c ∷ cs) = done (record { text = []; after = c ∷ cs })
copy_url (suc room) (suc left) (c ∷ cs) =
    let next = (do t ← copy_url room left cs; done (record t { text = c ∷ t.text })) in
    if is_space c then done (record { text = []; after = c ∷ cs }) else next

-- The string in `url`, and what `query_string` points to.
pub record Target : Type 0 where
  pub url : Bytes
  pub query : Bytes
  pub marked : Bool

-- the loop over a GET request's `url`: it cuts the string at the first '?'
unfoldable pub split_query : Bytes → Target
split_query [] = record { url = []; query = []; marked = false }
split_query (c ∷ cs) =
    let t = split_query cs in
    if c == b'?'
    then record { url = []; query = cs; marked = true }
    else record t { url = c ∷ t.url }

-- `sprintf(path, "etc%s", url)`, and the default page of a directory
unfoldable pub path_of : Bytes → Bytes
path_of url =
    let path = codes "etc" ++ url in
    if ends_with b'/' path then path ++ codes "index.html" else path

pub record Request : Type 0 where
  pub is_get : Bool
  pub method : Bytes
  pub path : Bytes
  -- `none` for the null pointer of a POST request
  pub query : Option Bytes
  pub cgi : Bool

unfoldable pub get_request : Bytes → Request
unfolding split_query path_of
get_request url =
    let t = split_query url in
    record {
      is_get = true;
      method = codes "GET";
      path = path_of t.url;
      query = some t.query;
      cgi = t.marked;
    }

unfoldable pub post_request : Bytes → Request
unfolding path_of
post_request url = record {
  is_get = false;
  method = codes "POST";
  path = path_of url;
  query = none;
  cgi = true;
}

unfoldable pub request_of : Bool → Bytes → Request
request_of true url = get_request url
request_of false url = post_request url

-- from the white space behind the method `m` on
unfoldable pub parse_url : Bool → Buf → ℕ → Token → Run (Option Request)
parse_url is_get buf numchars m = do
  at_url ← skip_spaces m.after
  u ← copy_url 254 (numchars - (length buf - length at_url)) at_url
  done (some (request_of is_get (c_string u.text)))

-- The request in `buf`, or `none` if its method is neither GET nor POST. `numchars` is the length
-- of the line in `buf`.
unfoldable pub parse_request : Buf → ℕ → Run (Option Request)
parse_request buf numchars = do
  m ← copy_method 254 buf
  let is_get = same_string (c_string m.text) (codes "GET")
  let is_post = same_string (c_string m.text) (codes "POST")
  if is_get || is_post then parse_url is_get buf numchars m else done none
