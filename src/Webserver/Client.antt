-- ===== src/Webserver/Client.antt =====
-- webserver/client.c: a request as `client_send` writes it. `sprintf` of an array into itself appends
-- to it.
pub mod Asks
pub mod Print
use ece344lab.Common.{ℕ, Bool, List, [], ◌∷◌, ◌++◌, ltb, if◌then◌else◌, length}
use ece344lab.Common.Action.{Outcome, Action, ok, fault}
use ece344lab.Webserver.Rio.{Sink, rio_write, or_exit}
use ece344lab.Webserver.Text.{codes}
use ece344lab.Webserver.Request.{crlf}

-- The line of the request, and that of the host.
unfoldable pub request_line : List ℕ → List ℕ
unfolding crlf
request_line filename = codes "GET " ++ (filename ++ (codes " HTTP/1.0" ++ crlf))

unfoldable pub host_line : List ℕ → List ℕ
unfolding crlf
host_line host = codes "host: " ++ (host ++ crlf)

unfoldable pub request_text : List ℕ → List ℕ → List ℕ
unfolding request_line host_line crlf
request_text host filename = request_line filename ++ (host_line host ++ crlf)

-- `client_send`; the array has 8192 bytes.
unfoldable pub client_send : List ℕ → List ℕ → Action Sink (Unit {0})
unfolding request_text rio_write
client_send host filename fd =
    if ltb (length (request_text host filename)) 8192
    then or_exit (rio_write (request_text host filename) fd)
    else fault
