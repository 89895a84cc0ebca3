-- ===== src/Webserver/Request/Served.antt =====
-- A file that `request_readfile` and `request_sendfile` of webserver/request.c read and send, as
-- `do_server_request` of webserver/server_thread.c calls them without a cache.
use ece344lab.Common.{
  ℕ, ◌+◌, ◌^◌, ◌≤◌, ◌<◌, ◌≡◌, refl, sym, ap, subst, ◌∙◌, true, false, ◌||◌, List, [], ◌∷◌, ◌++◌,
  some, arith, length,
}
use ece344lab.Common.Memory.{update}
use ece344lab.Common.Action.{Outcome, ok, err, abort, exited, fault, continue}
use ece344lab.Common.Int.{pos, to_s32}
use ece344lab.Webserver.Rio.{Reply, rio_read, or_exit}
use ece344lab.Webserver.Rio.Lines.{Unfailing, all_bytes, length-take}
use ece344lab.Webserver.Rio.Whole.{append_nil, Fails, ReadsWhole, rio_read-ReadsWhole}
use ece344lab.Webserver.Text.{codes, strstr, strrchr}
use ece344lab.Webserver.Request.{Request, checksum, say}
use ece344lab.Webserver.Request.Responses.{Sends, say-Sends, say-then}
use ece344lab.Webserver.Request.Files.{
  Disk, is_source, is_absolute, store_bytes, with_size, with_buf, loaded, load_file, read_sized,
  read_status, request_readfile, bytes_from, ok_header, send_bytes, send_file, request_sendfile,
  serve_uncached,
}

-- An array that bytes have been stored in holds them, and what was before them.
store_bytes-before : (l : List ℕ) (i j : ℕ) (m : ℕ → ℕ) → j < i → store_bytes i l m j ≡ m j
unfolding store_bytes
store_bytes-before [] i j m h = refl
store_bytes-before (c ∷ l) i j m h =
    store_bytes-before l (i + 1) j (update m i c) (omega (arith, h)) ∙ ground (arith, h)

bytes_from-store_bytes :
    (l : List ℕ) (i : ℕ) (m : ℕ → ℕ) → bytes_from (length l) i (store_bytes i l m) ≡ l
unfolding store_bytes bytes_from
bytes_from-store_bytes [] i m = refl
bytes_from-store_bytes (c ∷ l) i m =
    let first : store_bytes (i + 1) l (update m i c) i ≡ c =
      store_bytes-before l (i + 1) i (update m i c) (omega arith) ∙ ground arith in
    rw first (ap (λ r. c ∷ r) (bytes_from-store_bytes l (i + 1) (update m i c)))

-- The answer that a request is owed, or an exit where a write(2) fails.
abbrev pub Answers : List ℕ → Request → Outcome Request (Unit {0}) → Type 0
Answers text rq (ok _ t) = t.fd.sent ≡ rq.fd.sent ++ text
Answers text rq (err e t) = ⊥
Answers text rq abort = ⊥
Answers text rq exited = Fails rq.fd.accepted
Answers text rq fault = ⊥

Sends-Answers :
    (text : List ℕ) (rq t : Request) (r : Outcome Request (Unit {0}))
    → t.fd ≡ rq.fd
    → Sends text t r
    → Answers text rq r
Sends-Answers text rq t (ok _ s) e (gone, same, fails) = gone ∙ ap (λ fd. fd.sent ++ text) e
Sends-Answers text rq t (err x s) e w = w
Sends-Answers text rq t abort e w = w
Sends-Answers text rq t exited e w = subst (λ fd. Fails fd.accepted) e w
Sends-Answers text rq t fault e w = w

-- The answer 200 with a file.
unfoldable pub file_response : List ℕ → List ℕ → List ℕ
unfolding checksum
file_response name content = ok_header name (pos (length content)) (checksum 0 content) ++ content

read_all :
    (n : ℕ) (replies : List Reply) (r : Outcome (List Reply) (List ℕ))
    → rio_read n replies ≡ r
    → length (all_bytes replies) ≤ n
    → ReadsWhole n replies r
    → (more : List Reply) × (rio_read n replies ≡ ok (all_bytes replies) more)
read_all n replies (ok l more) e h (first, split) =
    (more, e ∙ ap (λ k. ok k more) (first ∙ length-take n (all_bytes replies) h))
read_all n replies (err x more) e h w = absurd w
read_all n replies abort e h w = absurd w
read_all n replies exited e h w = absurd w
read_all n replies fault e h w = absurd w

load_file-all :
    (malloced : ℕ → ℕ) (content : List ℕ) (replies : List Reply) (rq : Request)
    → Unfailing replies
    → all_bytes replies ≡ content
    → load_file malloced (length content) (some replies) rq
      ≡ ok true (with_buf (store_bytes 0 content malloced) rq)
unfolding load_file
load_file-all malloced content replies rq u same =
    let size : length (all_bytes replies) ≡ length content = ap length same in
    let (more, e) =
      read_all (length content) replies (rio_read (length content) replies) refl
        (omega (arith, size)) (rio_read-ReadsWhole (length content) replies u) in
    ap (λ o. loaded malloced rq (or_exit o)) e
    ∙ ap (λ l. ok true (with_buf (store_bytes 0 l malloced) rq)) same

-- With the size set, on an open file.
module _ (disk : Disk) (rq : Request) (replies : List Reply) where
  serve_sized :
      (content : List ℕ)
      → Unfailing replies
      → disk.opened rq.file.file_name ≡ some replies
      → all_bytes replies ≡ content
      → Answers (file_response rq.file.file_name content) rq (
          continue
            (λ _. request_sendfile)
            (read_sized disk (pos (length content)) (with_size (pos (length content)) rq)))
  unfolding request_sendfile file_response checksum send_file
  serve_sized [] u found same =
      let header : List ℕ = ok_header rq.file.file_name (pos 0) 0 in
      subst (λ k. Answers k rq (say header (with_size (pos 0) rq))) (sym (append_nil header))
        (Sends-Answers header rq (with_size (pos 0) rq) (say header (with_size (pos 0) rq)) refl
          (say-Sends header (with_size (pos 0) rq)))
  serve_sized (c ∷ l) u found same =
      let name = rq.file.file_name in
      let content : List ℕ = c ∷ l in
      let m : ℕ → ℕ = store_bytes 0 content disk.malloced in
      let sized : Request = with_size (pos (length content)) rq in
      let full : Request = with_buf m sized in
      let read : read_sized disk (pos (length content)) sized ≡ ok true full =
        ap (λ o. load_file disk.malloced (length content) o sized) found
        ∙ load_file-all disk.malloced content replies sized u same in
      subst (λ o. Answers (file_response name content) rq (continue (λ _. request_sendfile) o))
        (sym read)
        (subst
          (λ k.
            Answers (file_response name content) rq (send_bytes name k (pos (length content)) full))
          (sym (bytes_from-store_bytes content 0 disk.malloced))
          (Sends-Answers (file_response name content) rq full
            (send_bytes name content (pos (length content)) full) refl
            (say-then {A = Unit {0}} (ok_header name (pos (length content)) (checksum 0 content))
              content full (say content) λ t _. say-Sends content t)))

-- For a name that is not forbidden, of a readable file of fewer than 2 ^ 31 bytes that opens and is
-- read without an error, in whatever pieces: without a cache `do_server_request` sends "200 OK" with
-- the length and the checksum of the file's bytes, and then these bytes, unless the program ends,
-- which it does only where some write(2) to the connection fails.
pub serve_uncached-Answers :
    (disk : Disk) (rq : Request) (replies : List Reply)
    → (is_absolute rq.file.file_name
        || (strstr rq.file.file_name (codes "..") || is_source (strrchr rq.file.file_name b'.')))
      ≡ false
    → disk.stat rq.file.file_name
      ≡ some (record { regular = true; readable = true; st_size = length (all_bytes replies) })
    → length (all_bytes replies) < 2 ^ 31
    → disk.opened rq.file.file_name ≡ some replies
    → Unfailing replies
    → Answers (file_response rq.file.file_name (all_bytes replies)) rq (serve_uncached disk rq)
unfolding serve_uncached request_readfile read_status
serve_uncached-Answers disk rq replies allowed exists size found u =
    let n = length (all_bytes replies) in
    let inside : is_absolute rq.file.file_name ≡ false = ground (arith, allowed) in
    let down : strstr rq.file.file_name (codes "..") ≡ false = ground (arith, allowed) in
    let other : is_source (strrchr rq.file.file_name b'.') ≡ false = ground (arith, allowed) in
    let small : to_s32 n ≡ pos n = ground (arith, size) in
    rw (inside, down, other, exists, small)
      (serve_sized disk rq replies (all_bytes replies) u found refl)
