-- ===== src/Webserver/Request/Files.antt =====
-- `request_readfile` and `request_sendfile` of webserver/request.c, and the part of
-- `do_server_request` of webserver/server_thread.c that calls them without a cache.
use ece344lab.Common.{
  ℕ, zero, suc, ◌+◌, Bool, true, false, not, List, [], ◌∷◌, ◌++◌, ◌||◌, Option, none, some, ◌==◌,
  if◌then◌else◌,
}
use ece344lab.Common.Memory.{update}
use ece344lab.Common.Action.{
  Outcome, Action, ok, err, abort, exited, fault, pure, gets, modify, ◌>>=◌, ◌>>◌,
}
use ece344lab.Common.Int.{ℤ, pos, negsuc, to_s32}
use ece344lab.Common.Text.{same_text}
use ece344lab.Webserver.Rio.{Reply, rio_read, or_exit}
use ece344lab.Webserver.Text.{codes, strstr, strrchr, decimal, decimal_int}
use ece344lab.Webserver.Request.{
  FileContents, Request, request_get_file_type, say, checksum, request_error, crlf,
}

-- What stat(2) fills in: the tests of `st_mode`, and `st_size`.
pub record Status : Type 0 where
  pub regular : Bool
  pub readable : Bool
  pub st_size : ℕ

-- The answers of the file system for a name: stat(2), and open(2) with the results of read(2). What
-- `malloc` finds in memory is with them.
pub record Disk : Type 0 where
  pub stat : List ℕ → Option Status
  pub opened : List ℕ → Option (List Reply)
  pub malloced : ℕ → ℕ

-- The errors of `request_readfile` for the name of the request.
unfoldable pub refuse : List ℕ → List ℕ → List ℕ → Action Request Bool
unfolding request_error
refuse errnum shortmsg longmsg = do
  file ← gets (λ rq. rq.file)
  request_error file.file_name errnum shortmsg longmsg
  pure false

abbrev pub not_found : List ℕ → Action Request Bool
not_found longmsg = refuse (codes "404") (codes "Not found") longmsg

abbrev pub is_source : Option (List ℕ) → Bool
is_source none = false
is_source (some ext) = same_text ext (codes ".c") || same_text ext (codes ".h")

-- Bytes from the start of an array.
unfoldable pub store_bytes : ℕ → List ℕ → (ℕ → ℕ) → ℕ → ℕ
store_bytes i [] m = m
store_bytes i (c ∷ l) m = store_bytes (i + 1) l (update m i c)

abbrev pub with_size : ℤ → Request → Request
with_size n rq = record rq { file = record rq.file { file_size = n } }

abbrev pub with_buf : (ℕ → ℕ) → Request → Request
with_buf m rq = record rq { file = record rq.file { file_buf = some m } }

-- `Rio_read` into the new array
abbrev pub loaded : (ℕ → ℕ) → Request → Outcome (List Reply) (List ℕ) → Outcome Request Bool
loaded malloced rq (ok l rest) = ok true (with_buf (store_bytes 0 l malloced) rq)
loaded malloced rq (err e rest) = exited
loaded malloced rq abort = abort
loaded malloced rq exited = exited
loaded malloced rq fault = fault

unfoldable pub load_file : (ℕ → ℕ) → ℕ → Option (List Reply) → Action Request Bool
unfolding rio_read store_bytes
load_file malloced n none rq = exited
load_file malloced n (some replies) rq = loaded malloced rq (or_exit (rio_read n replies))

-- With the size set. `malloc` of a negative one, as a `size_t`, fails.
abbrev pub read_sized : Disk → ℤ → Action Request Bool
read_sized disk (pos zero) rq = ok true rq
read_sized disk (pos (suc n)) rq =
    load_file disk.malloced (suc n) (disk.opened rq.file.file_name) rq
read_sized disk (negsuc n) rq = exited

-- After the answer of stat(2).
unfoldable pub read_status : Disk → Option Status → Action Request Bool
unfolding refuse load_file
read_status disk none = not_found (codes "OS Web Server could not find this file")
read_status disk (some sbuf) =
    if not sbuf.regular || not sbuf.readable
    then refuse (codes "403") (codes "Forbidden") (codes "OS Web Server could not read this file")
    else (do modify (with_size (to_s32 sbuf.st_size)); read_sized disk (to_s32 sbuf.st_size))

-- `data->file_name[0] == '/'`
abbrev pub is_absolute : List ℕ → Bool
is_absolute [] = false
is_absolute (c ∷ l) = c == b'/'

unfoldable pub request_readfile : Disk → Action Request Bool
unfolding refuse read_status strstr strrchr same_text
request_readfile disk = do
  file ← gets (λ rq. rq.file)
  if is_absolute file.file_name
      then not_found (codes "OS Web Server doesn't serve files with absolute paths")
      else if strstr file.file_name (codes "..")
      then not_found (codes "OS Web Server doesn't serve files with .. in the path")
      else if is_source (strrchr file.file_name b'.')
      then not_found (codes "OS Web Server doesn't serve C or header files ")
      else read_status disk (disk.stat file.file_name)

-- The bytes of an array from an index on.
unfoldable pub bytes_from : ℕ → ℕ → (ℕ → ℕ) → List ℕ
bytes_from zero i m = []
bytes_from (suc n) i m = m i ∷ bytes_from n (i + 1) m

unfoldable pub ok_header : List ℕ → ℤ → ℕ → List ℕ
unfolding request_get_file_type decimal crlf
ok_header name size csum =
    codes "HTTP/1.0 200 OK\r\nServer: OS Web Server\r\nContent-Type: "
    ++ (request_get_file_type name
        ++ (codes "\r\nContent-Length: "
            ++ (decimal_int size
                ++ (codes "\r\nContent-Csum: " ++ (decimal csum ++ codes "\r\n\r\n")))))

abbrev pub send_bytes : List ℕ → List ℕ → ℤ → Action Request (Unit {0})
send_bytes name l size = do say (ok_header name size (checksum 0 l)); say l

-- `request_sendfile`; a size that is not positive takes no byte of the array.
unfoldable pub send_file : FileContents → ℤ → Option (ℕ → ℕ) → Action Request (Unit {0})
unfolding say ok_header checksum bytes_from
send_file file (negsuc n) m = say (ok_header file.file_name (negsuc n) (checksum 0 []))
send_file file (pos zero) m = say (ok_header file.file_name (pos zero) (checksum 0 []))
send_file file (pos (suc n)) none = λ rq. fault
send_file file (pos (suc n)) (some m) =
    send_bytes file.file_name (bytes_from (suc n) 0 m) (pos (suc n))

unfoldable pub request_sendfile : Action Request (Unit {0})
unfolding send_file
request_sendfile rq = send_file rq.file rq.file.file_size rq.file.file_buf rq

-- `request_set_data`
abbrev pub request_set_data : FileContents → Request → Request
request_set_data file rq = record rq { file = file }

-- The calls of `do_server_request` without a cache, after `request_init`.
unfoldable pub serve_uncached : Disk → Action Request (Unit {0})
unfolding request_readfile request_sendfile
serve_uncached disk = do served ← request_readfile disk; request_sendfile
