-- ===== src/Webserver/Tests/Exchange.antt =====
-- Concrete requests and answers between webserver/client.c and webserver/request.c.
use ece344lab.Common.{
  ℕ, ◌≤◌, ◌≡◌, refl, ap, ◌<◌, ◌||◌, true, false, List, [], ◌∷◌, ◌++◌, none, some, arith, length,
  inl, inr, ◌==◌, Bool-cases,
}
use ece344lab.Common.Action.{ok}
use ece344lab.Common.Int.{pos}
use ece344lab.Common.Text.{same_text, until_zero}
use ece344lab.Webserver.Rio.{
  Reply, bytes, interrupted, rio_init, rio_readlineb, Accepts, accepts, Sink, rio_write, rio_read,
  get_line, rio_readb, refill, take_bytes, drop_bytes, write_loop,
}
use ece344lab.Webserver.Rio.Lines.{
  all_bytes, contents, first_line, length-append, ReadsLine, rio_readlineb-ReadsLine,
}
use ece344lab.Webserver.Rio.Whole.{Writes, rio_write-Writes}
use ece344lab.Webserver.Text.{codes, strstr, strrchr, starts_with, decimal, digits}
use ece344lab.Webserver.Request.{
  Request, Unwritten, new_request, crlf, read_headers, request_init, checksum,
  request_get_file_type, say,
}
use ece344lab.Webserver.Request.Headers.{
  concat, AllHeaders, Skipped, read_headers-Skipped, read_headers_hangs,
}
use ece344lab.Webserver.Request.Files.{
  Disk, is_absolute, is_source, request_readfile, serve_uncached, request_sendfile, send_file,
  read_status, load_file, store_bytes, bytes_from, ok_header,
}
use ece344lab.Webserver.Request.Refused.{
  Forbidden, Refuses, request_readfile-Refuses, AnswersTwice, serve_uncached-AnswersTwice,
}
use ece344lab.Webserver.Request.Served.{file_response, Answers, serve_uncached-Answers}
use ece344lab.Webserver.Client.{client_send, request_text, request_line, host_line}
use ece344lab.Webserver.Client.Asks.{request_init-client_send}
use ece344lab.Webserver.Client.Print.{client_print}
use ece344lab.Webserver.Client.Print.Checks.{ShortLines, Accepted, client_print-serve_uncached}

-- A line that comes in two pieces, with an interrupted call between them.
abbrev pieces : List Reply
pieces = bytes b'a' (b'b' ∷ []) ∷ (interrupted ∷ (bytes b'c' (b'\n' ∷ (b'd' ∷ [])) ∷ []))

rio_readlineb-ReadsLine_example :
    ReadsLine 8 (contents (rio_init pieces)) (rio_readlineb 8 (rio_init pieces))
rio_readlineb-ReadsLine_example = rio_readlineb-ReadsLine 8 (rio_init pieces) tt

line_read :
    rio_readlineb 8 (rio_init pieces)
    ≡ ok (codes "abc\n") (record { unread = b'd' ∷ []; replies = [] })
unfolding rio_readlineb get_line rio_readb refill take_bytes drop_bytes
line_read = refl

-- A write of three bytes, first two of them.
abbrev slow : Sink
slow = record { sent = []; accepted = accepts 1 ∷ (Accepts.interrupted ∷ []) }

rio_write-Writes_example : Writes (codes "abc") [] (rio_write (codes "abc") slow)
rio_write-Writes_example = rio_write-Writes (codes "abc") slow

abbrev header : List ℕ
header = codes "host: h\r\n"

header-AllHeaders : AllHeaders (header ∷ [])
unfolding same_text until_zero crlf
header-AllHeaders = ((refl, omega arith, refl), tt)

with_end :
    contents (rio_init (bytes b'h' (codes "ost: h\r\n\r\n") ∷ []))
    ≡ concat (header ∷ []) ++ (crlf ++ [])
unfolding all_bytes concat crlf
with_end = refl

read_headers-Skipped_example :
    Skipped [] (read_headers 2 [] (rio_init (bytes b'h' (codes "ost: h\r\n\r\n") ∷ [])))
read_headers-Skipped_example =
    read_headers-Skipped (header ∷ []) [] [] (rio_init (bytes b'h' (codes "ost: h\r\n\r\n") ∷ []))
      header-AllHeaders tt with_end

without_end : contents (rio_init (bytes b'h' (codes "ost: h\r\n") ∷ [])) ≡ concat (header ∷ [])
unfolding all_bytes concat
without_end = refl

nothing_held : same_text [] crlf ≡ false
unfolding same_text crlf
nothing_held = refl

read_headers_hangs_example :
    read_headers 1000 [] (rio_init (bytes b'h' (codes "ost: h\r\n") ∷ [])) ≡ none
read_headers_hangs_example =
    read_headers_hangs (header ∷ []) 1000 [] (rio_init (bytes b'h' (codes "ost: h\r\n") ∷ []))
      header-AllHeaders nothing_held tt without_end

abbrev empty_sink : Sink
empty_sink = record { sent = []; accepted = [] }

abbrev nothing_written : Unwritten
nothing_written = record { buf = []; method = []; uri = []; header = []; name = [] }

-- A client asks for "a.html" on the host "h".
abbrev asked : List ℕ
asked = codes "GET a.html HTTP/1.0\r\nhost: h\r\n\r\n"

abbrev arriving : List Reply
arriving = bytes b'G' (codes "ET a.html HTTP/1.0\r\nhost: h\r\n\r\n") ∷ []

asked_sent :
    client_send (codes "h") (codes "a.html") empty_sink
    ≡ ok tt (record { sent = asked; accepted = [] })
unfolding client_send request_text request_line host_line crlf rio_write write_loop
asked_sent = refl

asked_arrives : all_bytes arriving ≡ asked
unfolding all_bytes
asked_arrives = refl

request_init-client_send_example :
    request_init 2 nothing_written empty_sink arriving
    ≡ some (ok true (new_request empty_sink (codes "./a.html")))
request_init-client_send_example =
    request_init-client_send (codes "h") b'a' (codes ".html") []
      (record { sent = asked; accepted = [] }) nothing_written empty_sink arriving
      (refl, refl, (refl, refl, (refl, refl, (refl, refl, (refl, refl, (refl, refl, tt))))))
      (refl, tt) asked_sent tt asked_arrives

-- A file system that has "hi" under each name.
abbrev stored : List Reply
stored = bytes b'h' (b'i' ∷ []) ∷ []

abbrev disk : Disk
disk = record {
  stat = λ name. some (record { regular = true; readable = true; st_size = 2 });
  opened = λ name. some stored;
  malloced = λ i. 0;
}

abbrev source_file : Request
source_file = new_request empty_sink (codes "./a.c")

source-Forbidden : Forbidden source_file.file.file_name
unfolding strstr starts_with strrchr same_text
source-Forbidden = refl

request_readfile-Refuses_example :
    (request_readfile disk source_file ≡ request_readfile disk source_file)
    × Refuses source_file (request_readfile disk source_file)
request_readfile-Refuses_example = request_readfile-Refuses disk disk source_file source-Forbidden

serve_uncached-AnswersTwice_example : AnswersTwice source_file (serve_uncached disk source_file)
serve_uncached-AnswersTwice_example =
    serve_uncached-AnswersTwice disk source_file refl source-Forbidden

abbrev page : Request
page = new_request empty_sink (codes "./a.html")

page_allowed :
    (is_absolute page.file.file_name
      || (strstr page.file.file_name (codes "..") || is_source (strrchr page.file.file_name b'.')))
    ≡ false
unfolding strstr starts_with strrchr same_text
page_allowed = refl

page_size :
    disk.stat page.file.file_name
    ≡ some (record { regular = true; readable = true; st_size = length (all_bytes stored) })
unfolding all_bytes
page_size = refl

page_small : length (all_bytes stored) < 3
unfolding all_bytes
page_small = omega arith

serve_uncached-Answers_example :
    Answers (file_response (codes "./a.html") (all_bytes stored)) page (serve_uncached disk page)
serve_uncached-Answers_example =
    serve_uncached-Answers disk page stored page_allowed page_size (omega (arith, page_small)) refl
      tt

-- The answer, and the request after it.
abbrev answer : List ℕ
answer =
    codes
      "HTTP/1.0 200 OK\r\nServer: OS Web Server\r\nContent-Type: text/html\r\nContent-Length: 2\r\nContent-Csum: 209\r\n\r\nhi"

abbrev served_page : Request
served_page = record {
  fd = record { sent = answer; accepted = [] };
  file = record {
    file_name = codes "./a.html";
    file_buf = some (store_bytes 0 (all_bytes stored) (λ i. 0));
    file_size = pos 2;
  };
}

page_served : serve_uncached disk page ≡ ok tt served_page
unfolding serve_uncached request_readfile request_sendfile send_file read_status load_file rio_read
    take_bytes drop_bytes strstr starts_with strrchr same_text store_bytes bytes_from say rio_write
    write_loop ok_header request_get_file_type decimal digits checksum all_bytes
page_served = refl

length-first_line : (l : List ℕ) → length (first_line l) ≤ length l
unfolding first_line
length-first_line [] = omega arith
length-first_line (c ∷ l) = elim (Bool-cases (c == b'\n')) [
  | inl ends ↦ rw ends (omega arith)
  | inr other ↦ rw other (omega (arith, length-first_line l))
]

-- A short text has short lines only.
short_text : (s : List ℕ) → length s < 8192 → ShortLines s
short_text s short a b e = omega (arith, length-first_line b, short, ap length e, length-append a b)

-- The answer, in two pieces.
abbrev answering : List Reply
answering =
    bytes b'H' (codes "TTP/1.0 200 OK\r\nServer: OS")
    ∷ (bytes b' ' (
          codes
            "Web Server\r\nContent-Type: text/html\r\nContent-Length: 2\r\nContent-Csum: 209\r\n\r\nhi")
        ∷ [])

answer_arrives : all_bytes answering ≡ answer
unfolding all_bytes
answer_arrives = refl

client_print-serve_uncached_example :
    Accepted (
      client_print 9 [] (checksum 0 (all_bytes stored)) (pos (length (all_bytes stored))) answering)
client_print-serve_uncached_example =
    client_print-serve_uncached disk page served_page stored answering [] 3 refl page_allowed
      page_size refl tt (omega (arith, page_small))
      (short_text (all_bytes stored) (omega (arith, page_small))) page_served tt answer_arrives
      (omega (arith, page_small))
