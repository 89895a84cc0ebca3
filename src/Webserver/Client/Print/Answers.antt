-- ===== src/Webserver/Client/Print/Answers.antt =====
-- The header of an answer of webserver/request.c, line by line, as `client_print` of
-- webserver/client.c reads it.
use ece344lab.Common.{
  ℕ, ◌^◌, ◌<◌, ◌≡◌, refl, sym, ap, ◌∙◌, inl, inr, Bool, true, false, List, [], ◌∷◌, ◌++◌, ◌||◌,
  ◌==◌, if◌then◌else◌, Bool-cases, arith, length,
}
use ece344lab.Common.Int.{pos, to_s32, to_u32}
use ece344lab.Common.Text.{same_text, until_zero, isspace}
use ece344lab.Webserver.Rio.{drop_bytes}
use ece344lab.Webserver.Rio.Lines.{assoc, length-append}
use ece344lab.Webserver.Text.{codes, strstr, decimal, starts_with, skip_space}
use ece344lab.Webserver.Request.{crlf, request_get_file_type}
use ece344lab.Webserver.Request.Files.{ok_header}
use ece344lab.Webserver.Request.Headers.{IsLine}
use ece344lab.Webserver.Client.Asks.{IsName, OneLine, name-OneLine, IsLine-append, until_zero-name}
use ece344lab.Webserver.Client.Print.{
  scan_digits, scan_tag, scan_header, Announced, nonempty, set_size, set_csum,
}
use ece344lab.Webserver.Client.Print.Numbers.{
  AllDigits, digits-until_zero, decimal-AllDigits, length-decimal_bound, scan_number-decimal,
}

unfoldable pub status_200 : List ℕ
status_200 = codes "HTTP/1.0 200 OK\r\n"

unfoldable pub server_line : List ℕ
server_line = codes "Server: OS Web Server\r\n"

unfoldable pub type_line : List ℕ → List ℕ
unfolding crlf
type_line filetype = codes "Content-Type: " ++ (filetype ++ crlf)

unfoldable pub length_line : ℕ → List ℕ
unfolding crlf
length_line n = codes "Content-Length: " ++ (decimal n ++ crlf)

unfoldable pub csum_line : ℕ → List ℕ
unfolding crlf
csum_line csum = codes "Content-Csum: " ++ (decimal csum ++ crlf)

-- The lines of the header, and what follows it.
unfoldable pub header_lines : List ℕ → ℕ → ℕ → List ℕ → List ℕ
header_lines name n csum body =
    status_200
    ++ (server_line
        ++ (type_line (request_get_file_type name)
            ++ (length_line n ++ (csum_line csum ++ (crlf ++ body)))))

pub ok_header-lines :
    (name : List ℕ) (n csum : ℕ) (body : List ℕ)
    → ok_header name (pos n) csum ++ body ≡ header_lines name n csum body
unfolding ok_header header_lines status_200 server_line type_line length_line csum_line crlf
ok_header-lines name n csum body =
    let end : List ℕ = codes "\r\n\r\n" in
    let ft : List ℕ = request_get_file_type name in
    let sum_text : List ℕ = codes "Content-Csum: " ++ ((decimal csum ++ crlf) ++ (crlf ++ body)) in
    let sum_same : (decimal csum ++ end) ++ body ≡ (decimal csum ++ crlf) ++ (crlf ++ body) =
      assoc (decimal csum) end body ∙ sym (assoc (decimal csum) crlf (crlf ++ body)) in
    let length_same : (decimal n ++ (codes "\r\nContent-Csum: " ++ (decimal csum ++ end))) ++ body
        ≡ (decimal n ++ crlf) ++ sum_text =
      assoc (decimal n) (codes "\r\nContent-Csum: " ++ (decimal csum ++ end)) body
      ∙ ap (λ r. decimal n ++ (codes "\r\nContent-Csum: " ++ r)) sum_same
      ∙ sym (assoc (decimal n) crlf sum_text) in
    let rest : List ℕ =
      codes "\r\nContent-Length: "
      ++ (decimal n ++ (codes "\r\nContent-Csum: " ++ (decimal csum ++ end))) in
    ap (λ r. codes "HTTP/1.0 200 OK\r\nServer: OS Web Server\r\nContent-Type: " ++ r)
      (assoc ft rest body
        ∙ ap (λ r. ft ++ (codes "\r\nContent-Length: " ++ r)) length_same
        ∙ sym (assoc ft crlf (codes "Content-Length: " ++ ((decimal n ++ crlf) ++ sum_text))))

digits-OneLine : (l : List ℕ) → AllDigits l → OneLine l
digits-OneLine [] d = tt
digits-OneLine (c ∷ l) (first, d) = (ground (arith, first), digits-OneLine l d)

-- A line that the loop goes on after, and that is a string as it stands.
abbrev pub Shown : List ℕ → Type 0
Shown l =
    IsLine l
    × (length l < 8192)
    × (until_zero l ≡ l)
    × (same_text l crlf ≡ false)
    × (nonempty l ≡ true)

abbrev all_named : List ℕ → Bool
all_named [] = true
all_named (c ∷ l) = let rest = all_named l in if isspace c || c == 0 then false else rest

all_named-IsName : (l : List ℕ) → all_named l ≡ true → IsName l
all_named-IsName [] h = tt
all_named-IsName (c ∷ l) h =
    (ground (arith, h), ground (arith, h), all_named-IsName l (ground (arith, h)))

abbrev pub Short : List ℕ → Type 0
Short filetype = IsName filetype × (length filetype < 100)

short : (filetype : List ℕ) → all_named filetype ≡ true → length filetype < 100 → Short filetype
short filetype named few = (all_named-IsName filetype named, few)

pub file_type-Short : (name : List ℕ) → Short (request_get_file_type name)
unfolding request_get_file_type
file_type-Short name = elim (Bool-cases (strstr name (codes ".html"))) [
  | inl e ↦ rw e (short (codes "text/html") refl (omega arith))
  | inr e ↦ (elim (Bool-cases (strstr name (codes ".gif"))) [
    | inl f ↦ rw (e, f) (short (codes "image/gif") refl (omega arith))
    | inr f ↦ (elim (Bool-cases (strstr name (codes ".jpg"))) [
      | inl g ↦ rw (e, f, g) (short (codes "image/jpeg") refl (omega arith))
      | inr g ↦ rw (e, f, g) (short (codes "text/plain") refl (omega arith))
    ])
  ])
]

pub server_line-Shown : Shown server_line
unfolding server_line until_zero same_text crlf
server_line-Shown = (refl, omega arith, refl, refl, refl)

pub type_line-Shown : (filetype : List ℕ) → Short filetype → Shown (type_line filetype)
unfolding type_line until_zero same_text crlf
type_line-Shown filetype (n, few) = (
  IsLine-append filetype crlf (name-OneLine filetype n) refl,
  omega (arith, few, length-append filetype crlf),
  ap (λ r. codes "Content-Type: " ++ r) (until_zero-name filetype crlf n refl),
  refl,
  refl,
)

pub length_line-Shown : (n : ℕ) → Shown (length_line n)
unfolding length_line until_zero same_text crlf
length_line-Shown n = (
  IsLine-append (decimal n) crlf (digits-OneLine (decimal n) (decimal-AllDigits n)) refl,
  omega (arith, length-decimal_bound n, length-append (decimal n) crlf),
  ap (λ r. codes "Content-Length: " ++ r)
      (digits-until_zero (decimal n) crlf (decimal-AllDigits n) refl),
  refl,
  refl,
)

pub csum_line-Shown : (n : ℕ) → Shown (csum_line n)
unfolding csum_line until_zero same_text crlf
csum_line-Shown n = (
  IsLine-append (decimal n) crlf (digits-OneLine (decimal n) (decimal-AllDigits n)) refl,
  omega (arith, length-decimal_bound n, length-append (decimal n) crlf),
  ap (λ r. codes "Content-Csum: " ++ r)
      (digits-until_zero (decimal n) crlf (decimal-AllDigits n) refl),
  refl,
  refl,
)

-- What the scans find in each line.
pub scan_header-server : (seen : Announced) → scan_header server_line seen ≡ seen
unfolding scan_header scan_tag starts_with server_line
scan_header-server seen = refl

pub scan_header-type :
    (filetype : List ℕ) (seen : Announced) → scan_header (type_line filetype) seen ≡ seen
unfolding scan_header scan_tag starts_with type_line
scan_header-type filetype seen = refl

pub scan_header-crlf : (seen : Announced) → scan_header crlf seen ≡ seen
unfolding scan_header scan_tag starts_with crlf
scan_header-crlf seen = refl

stops : (k : ℕ) → scan_digits k crlf ≡ k
unfolding scan_digits crlf
stops k = refl

pub scan_header-length :
    (n : ℕ) (seen : Announced)
    → n < 2 ^ 31
    → scan_header (length_line n) seen ≡ record seen { size = pos n }
unfolding scan_header scan_tag starts_with length_line skip_space drop_bytes
scan_header-length n seen h =
    let fits : to_s32 (to_u32 (pos n)) ≡ pos n = ground (arith, h) in
    ap (λ o. set_size o seen) (scan_number-decimal n crlf (omega (arith, h)) stops)
    ∙ ap (λ z. record seen { size = z }) fits

pub scan_header-csum :
    (n : ℕ) (seen : Announced)
    → n < 2 ^ 32
    → scan_header (csum_line n) seen ≡ record seen { csum = n }
unfolding scan_header scan_tag starts_with csum_line skip_space drop_bytes
scan_header-csum n seen h =
    let fits : to_u32 (pos n) ≡ n = omega (arith, h) in
    ap (λ o. set_csum o seen) (scan_number-decimal n crlf (omega (arith, h)) stops)
    ∙ ap (λ z. record seen { csum = z }) fits
