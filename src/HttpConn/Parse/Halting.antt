-- ===== src/HttpConn/Parse/Halting.antt =====
-- The runs of the parsers of version_03/http/http_conn.cpp, and what they keep of the indices of the
-- read buffer.
use tiny_http.Prelude.{
  ℕ, ◌+◌, ◌≡◌, Bool, true, false, Bytes, Run, Option, some, none, arith, if◌then◌else◌, codes,
}
use tiny_http.Prelude.Int.{ℤ, pos, negsuc}
use tiny_http.Prelude.{Ends, returned, faulted, Halts, Ends-bind, Ends-if}
use tiny_http.Libc.{
  load, store, is_blank, find, strspn, string, same_case, starts_case, store_all, atol,
}
use tiny_http.Libc.Halting.{
  load-Halts, store-Halts, find-Halts, strspn-Halts, string-Halts, same_case-Halts,
  starts_case-Halts, store_all-Halts, atol-Halts,
}
use tiny_http.HttpConn.Types.{HttpConn, HttpCode}
use tiny_http.HttpConn.Parse.{
  at, answer, cut, read_method, skip_scheme, check_url, check_version, split_url,
  parse_request_line, value_at, connection_header, length_header, host_header, one_header,
  end_headers, parse_headers, end_body, content_of, parse_content,
}

-- The bounds of what is read and of what is checked are as before.
abbrev pub Same : HttpConn → HttpConn → Type 0
Same c d = (d.read_idx ≡ c.read_idx) × (d.checked_idx ≡ c.checked_idx)

abbrev pub Keeps : HttpConn → Run (HttpCode × HttpConn) → Type 0
Keeps c m = Ends (λ (r : HttpCode × HttpConn). Same c r.1) m

pub option-Ends {ℓ κ μ} :
    {A : Type ℓ} {B : Type κ} {P : B → Type μ} (o : Option A) (x : Run B) (f : A → Run B)
    → Ends P x
    → ((a : A) → Ends P (f a))
    → Ends P (elim o [ none ↦ x | some a ↦ f a ])
option-Ends none x f p q = p
option-Ends (some a) x f p q = q a

module _ (c : HttpConn) where
  cut-Ends : (d : HttpConn) (i k : ℕ) → Same c d → Ends (λ e. Same c e) (cut d i k)
  cut-Ends d i k s =
      Ends-bind (store d.read_buf (i + k) 0) _ (store-Halts _ _ _) (λ b _. returned _ s)

  abbrev OptionSame : Option HttpConn → Type 0
  OptionSame none = Unit {0}
  OptionSame (some d) = Same c d

  OptionSame-if :
      (b : Bool) (x y : Option HttpConn)
      → OptionSame x
      → OptionSame y
      → OptionSame (if b then x else y)
  OptionSame-if true x y p q = p
  OptionSame-if false x y p q = q

  read_method-Ends : (d : HttpConn) (text : ℕ) → Same c d → Ends OptionSame (read_method d text)
  unfolding read_method
  read_method-Ends d text s =
      Ends-bind (same_case (codes "GET") (at d text)) _ (same_case-Halts _ _) (λ is_get _.
        Ends-bind (same_case (codes "POST") (at d text)) _ (same_case-Halts _ _)
          (λ is_post _. returned _ (OptionSame-if is_get _ _ s (OptionSame-if is_post _ _ s tt))))

  check_url-Keeps : (d : HttpConn) (url : Option ℕ) → Same c d → Keeps c (check_url d url)
  unfolding check_url
  check_url-Keeps d none s = returned _ s
  check_url-Keeps d (some url) s = Ends-bind (load d.read_buf url) _ (load-Halts _ _) (λ first _.
      Ends-bind (string (at d url)) _ (string-Halts _) (λ path _.
        Ends-if _
          (Ends-if _ (Ends-bind (store_all _ _ _) _ (store_all-Halts _ _ _) (λ b _. returned _ s))
            (returned _ s))
          (returned _ s)))

  skip_scheme-Halts :
      (scheme : Bytes) (d : HttpConn) (url : Option ℕ) → Halts (skip_scheme scheme d url)
  unfolding skip_scheme
  skip_scheme-Halts scheme d none = faulted
  skip_scheme-Halts scheme d (some url) =
      Ends-bind (starts_case scheme (at d url)) _ (starts_case-Halts _ _) (λ starts _.
        Ends-if starts (Ends-bind (find _ _) _ (find-Halts _ _) (λ r _. returned _ tt))
          (returned _ tt))

  check_version-Keeps :
      (d : HttpConn) (url version : ℕ) → Same c d → Keeps c (check_version d url version)
  unfolding check_version
  check_version-Keeps d url version s =
      Ends-bind (strspn is_blank (at d version)) _ (strspn-Halts _ _) (λ blanks _.
        Ends-bind (same_case _ _) _ (same_case-Halts _ _) (λ ok _.
          Ends-if ok
            (Ends-bind (skip_scheme _ _ _) _ (skip_scheme-Halts _ _ _) (λ url' _.
              Ends-bind (skip_scheme _ _ url') _ (skip_scheme-Halts _ _ _)
                (λ url'' _. check_url-Keeps _ url'' s)))
            (returned _ s)))

  split_url-Keeps : (d : HttpConn) (i : ℕ) → Same c d → Keeps c (split_url d i)
  unfolding split_url
  split_url-Keeps d i s = Ends-bind (strspn is_blank (at d i)) _ (strspn-Halts _ _) (λ blanks _.
      Ends-bind (find is_blank _) _ (find-Halts _ _) (λ found _.
        option-Ends found _ _ (returned _ s)
          (λ k. Ends-bind (cut _ _ _) _ (cut-Ends _ _ _ s) (λ e t. check_version-Keeps e _ _ t))))

  method-Keeps :
      (o : Option HttpConn) (d : HttpConn) (i : ℕ)
      → OptionSame o
      → Same c d
      → Keeps c (elim o [ none ↦ answer d HttpCode.bad_request | some c' ↦ split_url c' i ])
  method-Keeps none d i p s = returned _ s
  method-Keeps (some e) d i p s = split_url-Keeps e i p

  pub parse_request_line-Keeps :
      (d : HttpConn) (text : ℕ) → Same c d → Keeps c (parse_request_line d text)
  unfolding parse_request_line
  parse_request_line-Keeps d text s =
      Ends-bind (find is_blank (at d text)) _ (find-Halts _ _) (λ found _.
        option-Ends found _ _ (returned _ s) (λ k.
          Ends-bind (cut _ _ _) _ (cut-Ends _ _ _ s) (λ e t.
            Ends-bind (read_method e text) _ (read_method-Ends e text t)
              (λ o p. method-Keeps o e _ p t))))

  value_at-Halts : (d : HttpConn) (i : ℕ) → Halts (value_at d i)
  value_at-Halts d i =
      Ends-bind (strspn is_blank (at d i)) _ (strspn-Halts _ _) (λ b _. returned _ tt)

  Same-if : (b : Bool) (x y : HttpConn) → Same c x → Same c y → Same c (if b then x else y)
  Same-if true x y p q = p
  Same-if false x y p q = q

  one_header-Ends : (d : HttpConn) (text : ℕ) → Same c d → Ends (λ e. Same c e) (one_header d text)
  unfolding one_header connection_header length_header host_header
  one_header-Ends d text s =
      Ends-bind (starts_case (codes "Connection:") (at d text)) _ (starts_case-Halts _ _) (λ b1 _.
        Ends-bind (starts_case (codes "Content-length:") (at d text)) _ (starts_case-Halts _ _)
          (λ b2 _.
            Ends-bind (starts_case (codes "Host:") (at d text)) _ (starts_case-Halts _ _) (λ b3 _.
              Ends-if b1
                (Ends-bind (value_at d _) _ (value_at-Halts d _) (λ v _.
                  Ends-bind (same_case _ _) _ (same_case-Halts _ _)
                    (λ keep _. returned _ (Same-if keep _ _ s s))))
                (Ends-if b2
                  (Ends-bind (value_at d _) _ (value_at-Halts d _)
                    (λ v _. Ends-bind (atol _) _ (atol-Halts _) (λ n _. returned _ s)))
                  (Ends-if b3
                    (Ends-bind (value_at d _) _ (value_at-Halts d _) (λ v _. returned _ s))
                    (returned _ s))))))

  end_headers-Same : (d : HttpConn) → Same c d → Same c (end_headers d).1
  unfolding end_headers
  end_headers-Same d s = ground arith

  pub parse_headers-Keeps : (d : HttpConn) (text : ℕ) → Same c d → Keeps c (parse_headers d text)
  unfolding parse_headers
  parse_headers-Keeps d text s = Ends-bind (load d.read_buf text) _ (load-Halts _ _) (λ first _.
      Ends-if _ (returned _ (end_headers-Same d s))
        (Ends-bind (one_header d text) _ (one_header-Ends d text s) (λ e t. returned _ t)))

  end_body-Keeps : (d : HttpConn) (text stop : ℕ) → Same c d → Keeps c (end_body d text stop)
  unfolding end_body
  end_body-Keeps d text stop s = Ends-bind (store _ _ _) _ (store-Halts _ _ _) (λ b _. returned _ s)

  content_of-Keeps : (n : ℤ) (d : HttpConn) (text : ℕ) → Same c d → Keeps c (content_of n d text)
  unfolding content_of
  content_of-Keeps (pos n) d text s =
      Ends-if _ faulted (Ends-if _ (end_body-Keeps d text _ s) (returned _ s))
  content_of-Keeps (negsuc n) d text s =
      Ends-if _ (Ends-if _ faulted (end_body-Keeps d text _ s)) (returned _ s)

  pub parse_content-Keeps : (d : HttpConn) (text : ℕ) → Same c d → Keeps c (parse_content d text)
  unfolding parse_content
  parse_content-Keeps d text s = content_of-Keeps d.content_length d text s
