-- ===== src/Webserver/Client/Print/Header.antt =====
-- The loop of `client_print` of webserver/client.c over the header of an answer.
use ece344lab.Common.{
  ℕ, suc, ◌^◌, ◌<◌, ◌≡◌, refl, ap, ◌∙◌, true, false, List, [], ◌∷◌, ◌++◌, Option, some, arith,
  length,
}
use ece344lab.Common.Action.{Outcome, ok}
use ece344lab.Common.Int.{pos}
use ece344lab.Common.Text.{same_text, until_zero}
use ece344lab.Webserver.Rio.{Rio, or_exit}
use ece344lab.Webserver.Rio.Lines.{contents, Unfailing}
use ece344lab.Webserver.Request.{max_line, crlf, line_or}
use ece344lab.Webserver.Request.Headers.{IsLine, next_line}
use ece344lab.Webserver.Client.Print.{
  scan_header, Announced, nothing_announced, nonempty, after_line, read_answer,
}
use ece344lab.Webserver.Client.Print.Answers.{
  status_200, server_line, type_line, length_line, csum_line, Shown, server_line-Shown,
  length_line-Shown, csum_line-Shown, scan_header-server, scan_header-type, scan_header-crlf,
  scan_header-length, scan_header-csum,
}

-- One round of the loop over the header.
abbrev Round : ℕ → Announced → List ℕ → List ℕ → List ℕ → Rio → Type 0
Round rounds seen last l rest rp =
    (t : Rio) × (read_answer (suc rounds) seen last last rp
      ≡ read_answer rounds (scan_header l seen) l l t)
    × (contents t ≡ rest)
    × Unfailing t.replies

line_or-string : (buf l : List ℕ) → IsLine l → until_zero l ≡ l → line_or buf l ≡ l
line_or-string buf [] is same = absurd is
line_or-string buf (c ∷ l) is same = same

round :
    (rounds : ℕ) (seen : Announced) (last l rest : List ℕ) (rp : Rio)
    → same_text last crlf ≡ false
    → nonempty last ≡ true
    → IsLine l
    → length l < 8192
    → until_zero l ≡ l
    → contents rp ≡ l ++ rest
    → Unfailing rp.replies
    → Round rounds seen last l rest rp
unfolding read_answer after_line
round rounds seen last l rest rp other more is short whole all u =
    let (t, e, left, v) = next_line l rest rp is short all u in
    (
      t,
      rw (other, more)
          (ap (λ o. after_line (λ s b k r. read_answer rounds s b k r) seen last (or_exit o)) e
            ∙ ap (λ b. read_answer rounds (scan_header b seen) b l t)
                (line_or-string last l is whole)),
      left,
      v,
    )

-- The header is read: what it announces, and the bytes left.
abbrev pub ReadsHeader : ℕ → ℕ → List ℕ → Option (Outcome Rio Announced) → Type 0
ReadsHeader n csum body o =
    (t : Rio) × (o ≡ some (ok (record { size = pos n; csum = csum }) t))
    × (contents t ≡ body)
    × Unfailing t.replies

crlf_ends :
    (rounds : ℕ) (seen : Announced) (rp : Rio)
    → read_answer (suc rounds) seen crlf crlf rp ≡ some (ok seen rp)
unfolding read_answer same_text crlf
crlf_ends rounds seen rp = refl

module _ (filetype : List ℕ) (n csum : ℕ) (body : List ℕ) (k : ℕ) where
  unfoldable pub after_type : List ℕ
  after_type = length_line n ++ (csum_line csum ++ (crlf ++ body))

  -- From the length on.
  numbers_read :
      (rp : Rio)
      → Shown (type_line filetype)
      → n < 2 ^ 31
      → csum < 2 ^ 32
      → contents rp ≡ after_type
      → Unfailing rp.replies
      → ReadsHeader n csum body (
          read_answer
            (suc (suc (suc (suc k))))
            nothing_announced
            (type_line filetype)
            (type_line filetype)
            rp)
  unfolding after_type max_line crlf same_text until_zero
  numbers_read rp (_, _, _, other0, more0) small word all u =
      let (is1, few1, same1, other1, more1) = length_line-Shown n in
      let (is2, few2, same2, other2, more2) = csum_line-Shown csum in
      let announced1 : Announced = record { size = pos n; csum = 0 } in
      let announced2 : Announced = record { size = pos n; csum = csum } in
      let (t1, e1, rest1, u1) =
        round (suc (suc (suc k))) nothing_announced (type_line filetype) (length_line n)
          (csum_line csum ++ (crlf ++ body)) rp other0 more0 is1 few1 same1 all u in
      let (t2, e2, rest2, u2) =
        round (suc (suc k)) announced1 (length_line n) (csum_line csum) (crlf ++ body) t1 other1
          more1 is2 few2 same2 rest1 u1 in
      let (t3, e3, rest3, u3) =
        round (suc k) announced2 (csum_line csum) crlf body t2 other2 more2 refl (omega arith) refl
          rest2 u2 in
      (
        t3,
        e1
            ∙ ap (λ s. read_answer (suc (suc (suc k))) s (length_line n) (length_line n) t1)
                (scan_header-length n nothing_announced small)
            ∙ e2
            ∙ ap (λ s. read_answer (suc (suc k)) s (csum_line csum) (csum_line csum) t2)
                (scan_header-csum csum announced1 word)
            ∙ e3
            ∙ ap (λ s. read_answer (suc k) s crlf crlf t3) (scan_header-crlf announced2)
            ∙ crlf_ends k announced2 t3,
        rest3,
        u3,
      )

  -- After the first line.
  pub header_read :
      (rp : Rio)
      → Shown (type_line filetype)
      → n < 2 ^ 31
      → csum < 2 ^ 32
      → contents rp ≡ server_line ++ (type_line filetype ++ after_type)
      → Unfailing rp.replies
      → ReadsHeader n csum body (
          read_answer
            (suc (suc (suc (suc (suc (suc k))))))
            nothing_announced
            status_200
            status_200
            rp)
  unfolding status_200 crlf same_text until_zero
  header_read rp shown small word all u =
      let (is0, few0, same0, other0, more0) = server_line-Shown in
      let (is1, few1, same1, other1, more1) = shown in
      let (t1, e1, rest1, u1) =
        round (suc (suc (suc (suc (suc k))))) nothing_announced status_200 server_line
          (type_line filetype ++ after_type) rp refl refl is0 few0 same0 all u in
      let (t2, e2, rest2, u2) =
        round (suc (suc (suc (suc k)))) nothing_announced server_line (type_line filetype)
          after_type t1 other0 more0 is1 few1 same1 rest1 u1 in
      let (t3, e3, rest3, u3) = numbers_read t2 shown small word rest2 u2 in
      (
        t3,
        e1
            ∙ ap (λ s. read_answer (suc (suc (suc (suc (suc k))))) s server_line server_line t1)
                (scan_header-server nothing_announced)
            ∙ e2
            ∙ ap
                (λ s.
                  read_answer (suc (suc (suc (suc k)))) s (type_line filetype) (type_line filetype)
                    t2)
                (scan_header-type filetype nothing_announced)
            ∙ e3,
        rest3,
        u3,
      )
