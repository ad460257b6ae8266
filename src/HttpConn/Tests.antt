-- ===== src/HttpConn/Tests.antt =====
-- Runs of version_03's connection, and the theorems at concrete inputs.
use tiny_http.Prelude.{
  ℕ, zero, suc, ◌+◌, ◌≤◌, ◌≡◌, ◌≢◌, timeout, ◌⊎◌, refl, true, false, [], ◌∷◌, ◌++◌, Bytes, length,
  some, none, replicate, done, arith, codes,
}
use tiny_http.Prelude.Int.{pos}
use tiny_http.Libc.{load, store, print_int}
use tiny_http.HttpConn.Types.{
  HttpConn, check_state_requestline, check_state_content, get, bad_request, file_request,
  no_request, line_ok, line_open, epollin,
}
use tiny_http.HttpConn.Line.{at_cr, at_lf, scan_line, parse_line, read_once}
use tiny_http.HttpConn.Line.Resume.{parse_line_resume}
use tiny_http.HttpConn.Request.{Host}
use tiny_http.HttpConn.Reply.{process_write, one_buffer, two_buffers}
use tiny_http.HttpConn.Reply.Fits.{header_text, process_write-error}
use tiny_http.HttpConn.Send.{wrote, again, Written, pending, gather, slice, write}
use tiny_http.HttpConn.Send.Deliver.{IsStreaming, process_write-write, write-IsStreaming}
use tiny_http.HttpConn.Send.Split.{write_split}
use tiny_http.HttpConn.Process.{process_read}
use tiny_http.HttpConn.Process.Total.{process_read-ne-timeout}
use tiny_http.HttpConn.Process.Body.{IsPlain, process_read_split_body}

-- a connection that is set up
abbrev fresh : HttpConn
fresh = record {
  sockfd = some 5;
  user_count = pos 1;
  watch = some (record { event = epollin; one_shot = true });
  is_open = true;
  nonblocking = true;
  output = [];
  read_buf = replicate 40 0;
  read_idx = 0;
  checked_idx = 0;
  start_line = 0;
  write_buf = [];
  check_state = check_state_requestline;
  method = get;
  real_file = [];
  url = none;
  version = none;
  host = none;
  content_length = pos 0;
  linger = false;
  file = none;
  iv0 = record { base = 0; len = 0 };
  iv1 = record { base = 0; len = 0 };
  iv_count = 0;
  cgi = false;
  string = none;
  bytes_to_send = 0;
  bytes_have_send = 0;
}

-- "GET /\r" has arrived, and "\nHost" waits.
abbrev half : HttpConn
half = record fresh { read_buf = codes "GET /\r" ++ replicate 10 0; read_idx = 6 }

abbrev half_checked : HttpConn
half_checked = record half { checked_idx = 5 }

abbrev whole : HttpConn
whole = record half { read_buf = codes "GET /\r\nHost" ++ replicate 5 0; read_idx = 11 }

abbrev whole_checked : HttpConn
whole_checked = record whole { checked_idx = 5 }

parse_line-half : parse_line half ≡ done (line_open, half_checked)
unfolding parse_line scan_line at_cr at_lf load
parse_line-half = refl

read_once-checked : read_once half_checked (some (codes "\nHost")) ≡ some whole_checked
unfolding read_once
read_once-checked = refl

read_once-half : read_once half (some (codes "\nHost")) ≡ some whole
unfolding read_once
read_once-half = refl

parse_line_resume_example : parse_line whole_checked ≡ parse_line whole
parse_line_resume_example =
    parse_line_resume half half_checked whole_checked whole (codes "\nHost") (omega arith)
      (omega arith) parse_line-half read_once-checked read_once-half

-- Both find the line.
parse_line-whole :
    parse_line whole
    ≡ done (
      line_ok,
      record whole {
        read_buf = codes "GET /" ++ 0 ∷ 0 ∷ codes "Host" ++ replicate 5 0;
        checked_idx = 7;
      },
    )
unfolding parse_line scan_line at_cr at_lf load store
parse_line-whole = refl

process_write-error_example : process_write fresh bad_request ≡ (
  true,
  one_buffer (record fresh {
    write_buf =
        header_text 404
          (codes "Not Found")
          (length (codes "The requested file was not found on this server.\n"))
          false
        ++ codes "The requested file was not found on this server.\n";
  }),
)
process_write-error_example =
    process_write-error fresh bad_request 404 (codes "Not Found")
      (codes "The requested file was not found on this server.\n") refl refl

abbrev page : Bytes
page = codes "hello"

abbrev answering : HttpConn
answering = record fresh { file = some page }

abbrev page_header : Bytes
page_header = header_text 200 (codes "OK") (length page) false

page_header_fits : length page_header ≤ 100
unfolding print_int
page_header_fits = omega arith

process_write-write_example :
    (w : Written) × (c' : HttpConn) × (write
        (wrote 100 ∷ again ∷ [])
        (process_write answering file_request).1
      ≡ done (w, c'))
    × (IsStreaming [] page_header page c' ⊎ (c'.output ≡ page_header ++ page))
process_write-write_example =
    process_write-write answering page 100 (again ∷ []) refl refl (omega arith)
      (omega (arith, page_header_fits)) refl tt page_header_fits

abbrev headed : HttpConn
headed = record answering { write_buf = codes "abcdefgh" }

-- Of the header, 8 bytes, two calls of `writev` take 3 and 1.
write_split_example :
    (c' : HttpConn) × (rest : Bytes) × (write
        (wrote 3 ∷ wrote 1 ∷ [])
        (two_buffers headed (length page))
      ≡ done (pending, c'))
    × (gather c' ≡ done rest)
    × (length rest + 3 ≡ c'.bytes_to_send)
write_split_example =
    write_split headed page 3 1 refl refl (omega arith) (omega arith) (omega arith)

-- The header and one byte of the page are sent.
abbrev streaming : HttpConn
streaming = record headed {
  iv1 = record { base = 1; len = 4 };
  iv_count = 2;
  bytes_have_send = 9;
  bytes_to_send = 4;
  output = codes "abcdefghh";
}

streaming-IsStreaming : IsStreaming [] (codes "abcdefgh") page streaming
unfolding gather slice
streaming-IsStreaming = (
  record {
    file = refl;
    header = refl;
    count = refl;
    total = omega arith;
    fits = omega arith;
    gathers = refl;
    base = omega arith;
    len = omega arith;
    sent = refl;
  },
  omega arith,
  omega arith,
)

write-IsStreaming_example :
    (w : Written) × (c' : HttpConn) × (write (wrote 2 ∷ wrote 7 ∷ []) streaming ≡ done (w, c'))
    × (IsStreaming [] (codes "abcdefgh") page c' ⊎ (c'.output ≡ codes "abcdefghhello"))
write-IsStreaming_example =
    write-IsStreaming [] (codes "abcdefgh") page (wrote 2 ∷ wrote 7 ∷ []) streaming tt
      streaming-IsStreaming

abbrev nothing_there : Host
nothing_there = record { stat = λ path. none; query_fails = λ q. false }

-- A body of four bytes, of which two have arrived.
abbrev waiting : HttpConn
waiting = record fresh {
  read_buf = codes "user" ++ replicate 4 0;
  read_idx = 2;
  check_state = check_state_content;
  content_length = pos 4;
}

IsPlain-user : (lo hi : ℕ) → hi ≤ 4 → IsPlain (codes "user" ++ replicate 4 0) lo hi
unfolding load
IsPlain-user lo hi h zero _ k = (b'u', refl, refl, refl)
IsPlain-user lo hi h (suc zero) _ k = (b's', refl, refl, refl)
IsPlain-user lo hi h (suc (suc zero)) _ k = (b'e', refl, refl, refl)
IsPlain-user lo hi h (suc (suc (suc zero))) _ k = (b'r', refl, refl, refl)
IsPlain-user lo hi h (suc (suc (suc (suc j)))) _ k = absurd (omega arith)

process_read-ne-timeout_example : process_read nothing_there [] waiting ≢ timeout
process_read-ne-timeout_example = process_read-ne-timeout nothing_there [] waiting (omega arith)

process_read_split_body_example :
    (process_read nothing_there [] waiting
      ≡ done (no_request, record waiting { checked_idx = 2 }, []))
    × (process_read nothing_there [] (record waiting { checked_idx = 2; read_idx = 4 })
        ≡ done (no_request, record waiting { checked_idx = 4; read_idx = 4; start_line = 2 }, []))
process_read_split_body_example =
    process_read_split_body nothing_there [] waiting (codes "user" ++ replicate 4 0) 4 2 refl refl
      refl (omega arith) (omega arith) (omega arith) (IsPlain-user 0 2 (omega arith))
      (IsPlain-user 2 4 (omega arith))
