-- ===== src/Webserver/Request.antt =====
-- webserver/request.c. The file system is a parameter: what stat(2) and open(2) answer for a name,
-- and what the calls of read(2) on an open file return. `malloc` succeeds, and an array that has not
-- been written holds some string. The copies of the error responses that go to the standard output
-- are left out, and so is `request_processfile`, which only takes time.
pub mod Files
pub mod Headers
pub mod Responses
pub mod Refused
pub mod Served
use ece344lab.Common.{
  ℕ, zero, suc, ◌+◌, ◌%◌, ◌^◌, Bool, true, false, not, List, [], ◌∷◌, ◌++◌, ◌&&◌, ◌||◌, Option,
  none, some, ltb, if◌then◌else◌, length,
}
use ece344lab.Common.Action.{
  Outcome, Action, ok, err, abort, exited, fault, pure, gets, modify, continue, put_back, zoom,
  ◌>>=◌, ◌>>◌,
}
use ece344lab.Common.Int.{ℤ, pos, negsuc, to_s32}
use ece344lab.Common.Text.{same_text, until_zero}
use ece344lab.Webserver.Rio.{
  Reply, take_bytes, Rio, rio_init, rio_readlineb, rio_read, Sink, rio_write, or_exit,
}
use ece344lab.Webserver.Text.{
  codes, strstr, strrchr, same_letters, decimal, decimal_int, skip_space, first_word, after_word,
  word_or,
}

-- `struct file_data`; the buffer is `NULL` or an array.
pub record FileContents : Type 0 where
  pub file_name : List ℕ
  pub file_buf : Option (ℕ → ℕ)
  pub file_size : ℤ

-- `struct request`: what is written to the connection, and `data`.
pub record Request : Type 0 where
  pub fd : Sink
  pub file : FileContents

unfoldable pub max_line : ℕ
max_line = 8192

unfoldable pub crlf : List ℕ
crlf = 13 ∷ (10 ∷ [])

-- The array after a line has been read: at the end of the file it is as it was.
abbrev pub line_or : List ℕ → List ℕ → List ℕ
line_or buf [] = buf
line_or buf (c ∷ l) = until_zero (c ∷ l)

-- The test of the loop of `request_read_headers`, after a call of `Rio_readlineb`.
unfoldable pub after_header :
    (List ℕ → Rio → Option (Outcome Rio (Unit {0})))
    → List ℕ
    → Outcome Rio (List ℕ)
    → Option (Outcome Rio (Unit {0}))
unfolding same_text crlf
after_header again buf (ok line rp) =
    if same_text (line_or buf line) crlf then some (ok tt rp) else again (line_or buf line) rp
after_header again buf (err e rp) = some (err e rp)
after_header again buf abort = some abort
after_header again buf exited = some exited
after_header again buf fault = some fault

-- `request_read_headers` from a call of `Rio_readlineb` on, with the string in `buf` before it, in so
-- many calls: `none` where it has not returned.
unfoldable pub read_headers : ℕ → List ℕ → Rio → Option (Outcome Rio (Unit {0}))
unfolding rio_readlineb max_line after_header
read_headers zero buf rp = none
read_headers (suc calls) buf rp =
    after_header (λ b t. read_headers calls b t) buf (or_exit (rio_readlineb max_line rp))

-- `request_parse_URI`: `snprintf` keeps a 0 within `max`.
unfoldable pub request_parse_uri : List ℕ → List ℕ
unfolding take_bytes
request_parse_uri uri = take_bytes 8191 (b'.' ∷ (b'/' ∷ uri))

-- `request_get_file_type`
unfoldable pub request_get_file_type : List ℕ → List ℕ
unfolding strstr
request_get_file_type filename =
    if strstr filename (codes ".html")
    then codes "text/html"
    else if strstr filename (codes ".gif")
    then codes "image/gif"
    else if strstr filename (codes ".jpg")
    then codes "image/jpeg"
    else codes "text/plain"

-- `Rio_write`
unfoldable pub say : List ℕ → Action Request (Unit {0})
unfolding rio_write
say text rq = put_back (λ fd. record rq { fd = fd }) (or_exit (rio_write text rq.fd))

-- The sum of bytes in an `unsigned int`
unfoldable pub checksum : ℕ → List ℕ → ℕ
checksum csum [] = csum
checksum csum (c ∷ l) = checksum ((csum + c) % 2 ^ 32) l

-- The body of an error response. `sprintf` of an array into itself appends to it.
unfoldable pub error_body : List ℕ → List ℕ → List ℕ → List ℕ → List ℕ
error_body cause errnum shortmsg longmsg =
    codes "<html><title>OS Web Server Error</title>"
    ++ (codes "<body bgcolor=fffff>\r\n"
        ++ (codes "<p>"
            ++ (errnum
                ++ (codes ": "
                    ++ (shortmsg
                        ++ (codes "</p>\r\n"
                            ++ (codes "<p>"
                                ++ (longmsg
                                    ++ (codes ": "
                                        ++ (cause
                                            ++ (codes "</p>\r\n"
                                                ++ codes "</body></html>\r\n")))))))))))

unfoldable pub status_line : List ℕ → List ℕ → List ℕ
status_line errnum shortmsg = codes "HTTP/1.0 " ++ (errnum ++ (codes " " ++ (shortmsg ++ crlf)))

-- `request_error`. A body that is not shorter than `body[MAXBUF]` is written past its end.
unfoldable pub request_error : List ℕ → List ℕ → List ℕ → List ℕ → Action Request (Unit {0})
unfolding error_body status_line checksum crlf decimal say
request_error cause errnum shortmsg longmsg =
    let body = error_body cause errnum shortmsg longmsg in
    if ltb (length body) 8192
    then (do
      say (status_line errnum shortmsg)
      say (codes "Content-Type: text/html\r\n")
      say (codes "Content-Length: " ++ (decimal (length body) ++ crlf))
      say (codes "Content-Csum: " ++ (decimal (checksum 0 body) ++ codes "\r\n\r\n"))
      say body)
    else λ rq. fault

-- What arrays on the stack, and the name, hold before they are written.
pub record Unwritten : Type 0 where
  pub buf : List ℕ
  pub method : List ℕ
  pub uri : List ℕ
  pub header : List ℕ
  pub name : List ℕ

abbrev pub new_request : Sink → List ℕ → Request
new_request fd name = record {
  fd = fd;
  file = record { file_name = name; file_buf = none; file_size = pos 0 };
}

-- After the headers: the name is set.
unfoldable pub named :
    Sink → List ℕ → Option (Outcome Rio (Unit {0})) → Option (Outcome Request Bool)
unfolding request_parse_uri
named fd uri none = none
named fd uri (some (ok _ rp)) = some (ok true (new_request fd (request_parse_uri uri)))
named fd uri (some (err e rp)) = some exited
named fd uri (some abort) = some abort
named fd uri (some exited) = some exited
named fd uri (some fault) = some fault

-- From `sscanf` on, with the string of the first line.
unfoldable pub parse_request : ℕ → Unwritten → Sink → List ℕ → Rio → Option (Outcome Request Bool)
unfolding read_headers named request_error first_word skip_space after_word same_letters
parse_request calls old fd line rp =
    let method = word_or old.method (first_word (skip_space line)) in
    let uri = word_or old.uri (first_word (skip_space (after_word (skip_space line)))) in
    if same_letters method (codes "GET")
    then named fd uri (read_headers calls old.header rp)
    else some (
        (do
          request_error method (codes "501") (codes "Not Implemented")
              (codes "OS Web Server does not implement this method")
          pure false)
          (new_request fd old.name))

abbrev pub after_first_line :
    ℕ → Unwritten → Sink → Outcome Rio (List ℕ) → Option (Outcome Request Bool)
after_first_line calls old fd (ok line rp) = parse_request calls old fd (line_or old.buf line) rp
after_first_line calls old fd (err e rp) = some exited
after_first_line calls old fd abort = some abort
after_first_line calls old fd exited = some exited
after_first_line calls old fd fault = some fault

-- `request_init`: whether it returns a request. `calls` bounds the calls that read the headers.
unfoldable pub request_init : ℕ → Unwritten → Sink → List Reply → Option (Outcome Request Bool)
unfolding parse_request rio_readlineb max_line
request_init calls old fd replies =
    after_first_line calls old fd (or_exit (rio_readlineb max_line (rio_init replies)))
