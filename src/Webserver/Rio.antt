-- ===== src/Webserver/Rio.antt =====
-- The robust I/O package of webserver/common.c. read(2) and write(2) are parameters: the results of
-- the calls on a descriptor, in order, whatever they are. `malloc` succeeds. The counts are `int`
-- and `size_t`, and no buffer has 2^31 bytes.
pub mod Lines
pub mod Whole
use ece344lab.Common.{
  ℕ, zero, suc, ◌-◌, Bool, true, false, List, [], ◌∷◌, ◌++◌, ltb, leb, ◌==◌, if◌then◌else◌, length,
}
use ece344lab.Common.Action.{Outcome, Action, ok, err, abort, exited, fault, pure, continue, ◌>>=◌}

-- What one read(2) finds: a byte and more, of which it returns as many as it is asked for and leaves
-- the others to the next call, EINTR, or another error. When there are no more it returns 0, the
-- end of the file.
pub data Reply : Type 0 where
  bytes : ℕ → List ℕ → Reply
  interrupted : Reply
  failed : Reply

unfoldable pub take_bytes : ℕ → List ℕ → List ℕ
take_bytes zero l = []
take_bytes (suc n) [] = []
take_bytes (suc n) (c ∷ l) = c ∷ take_bytes n l

unfoldable pub drop_bytes : ℕ → List ℕ → List ℕ
drop_bytes zero l = l
drop_bytes (suc n) [] = []
drop_bytes (suc n) (c ∷ l) = drop_bytes n l

-- Bytes that a call leaves.
abbrev pub left_over : List ℕ → List Reply → List Reply
left_over [] replies = replies
left_over (c ∷ l) replies = bytes c l ∷ replies

-- `struct rio`: the `rio_cnt` bytes from `rio_bufptr`, none where it is negative, and the descriptor.
pub record Rio : Type 0 where
  pub unread : List ℕ
  pub replies : List Reply

abbrev pub rio_init : List Reply → Rio
rio_init replies = record { unread = []; replies = replies }

-- The bytes that a call has got, and those of the calls after it.
abbrev pub got : List ℕ → Outcome (List Reply) (List ℕ) → Outcome (List Reply) (List ℕ)
got l (ok more replies) = ok (l ++ more) replies
got l (err e replies) = err e replies
got l abort = abort
got l exited = exited
got l fault = fault

-- The loop of `rio_read`, `nleft` bytes from its end. The bytes are those at `usrbuf`, their number
-- is the result, and `err 1` is -1. A call that gets all `nleft` is the last one.
unfoldable pub rio_read : ℕ → Action (List Reply) (List ℕ)
unfolding take_bytes drop_bytes
rio_read nleft [] = ok [] []
rio_read nleft (reply ∷ replies) = elim reply [
  | bytes c l ↦
      let rest = rio_read (nleft - length (c ∷ l)) replies in
      if leb nleft (length (c ∷ l))
      then ok (take_bytes nleft (c ∷ l)) (left_over (drop_bytes nleft (c ∷ l)) replies)
      else got (c ∷ l) rest
  | interrupted ↦
      let rest = rio_read nleft replies in
      if nleft == 0 then ok [] (interrupted ∷ replies) else rest
  | failed ↦ if nleft == 0 then ok [] (failed ∷ replies) else err 1 replies
]

-- What one write(2) does: it takes a byte and up to so many more, or fails with EINTR or another
-- error. One that takes none is one of the last two, by the `errno` that it finds. When there are
-- no more it takes everything.
pub data Accepts : Type 0 where
  accepts : ℕ → Accepts
  interrupted : Accepts
  failed : Accepts

-- A descriptor to write to: the bytes that it has taken, and the results of the calls to come.
pub record Sink : Type 0 where
  pub sent : List ℕ
  pub accepted : List Accepts

-- The loop of `rio_write`, with the bytes from `bufp` on.
unfoldable pub write_loop : List ℕ → List ℕ → List Accepts → Outcome Sink (Unit {0})
unfolding take_bytes drop_bytes
write_loop [] sent results = ok tt (record { sent = sent; accepted = results })
write_loop (c ∷ l) sent [] = ok tt (record { sent = sent ++ (c ∷ l); accepted = [] })
write_loop (c ∷ l) sent (accepts n ∷ results) =
    write_loop (drop_bytes n l) (sent ++ (c ∷ take_bytes n l)) results
write_loop (c ∷ l) sent (interrupted ∷ results) = write_loop (c ∷ l) sent results
write_loop (c ∷ l) sent (failed ∷ results) = err 1 (record { sent = sent; accepted = results })

unfoldable pub rio_write : List ℕ → Action Sink (Unit {0})
unfolding write_loop
rio_write usrbuf s = write_loop usrbuf s.sent s.accepted

-- The loop of `rio_readb` on an empty buffer of 8192 bytes: whether it has bytes now.
unfoldable pub refill : List Reply → Outcome Rio Bool
unfolding take_bytes drop_bytes
refill [] = ok false (rio_init [])
refill (bytes c l ∷ replies) = ok true (record {
  unread = take_bytes 8192 (c ∷ l);
  replies = left_over (drop_bytes 8192 (c ∷ l)) replies;
})
refill (interrupted ∷ replies) = refill replies
refill (failed ∷ replies) = err 1 (rio_init replies)

abbrev pub copied : ℕ → Action Rio (List ℕ)
copied n rp =
    ok (take_bytes n rp.unread) (record { unread = drop_bytes n rp.unread; replies = rp.replies })

abbrev pub after_refill : ℕ → Bool → Action Rio (List ℕ)
after_refill n true = copied n
after_refill n false = pure []

abbrev pub ready : List ℕ → List Reply → Outcome Rio Bool
ready [] replies = refill replies
ready (c ∷ l) replies = ok true (record { unread = c ∷ l; replies = replies })

-- `rio_readb`: the bytes that it copies to `usrbuf`.
unfoldable pub rio_readb : ℕ → Action Rio (List ℕ)
unfolding refill take_bytes drop_bytes
rio_readb n rp = continue (after_refill n) (ready rp.unread rp.replies)

-- The loop of `rio_readlineb`: the bytes that it stores, when it can store so many.
unfoldable pub get_line : ℕ → Action Rio (List ℕ)
unfolding rio_readb
get_line zero = pure []
get_line (suc left) = do
  got ← rio_readb 1
  elim got [
    | [] ↦ pure []
    | c ∷ _ ↦ if c == b'\n' then pure (c ∷ []) else (do rest ← get_line left; pure (c ∷ rest))
  ]

-- `*bufp = 0`, in an object of `maxlen` bytes.
abbrev pub terminated : ℕ → List ℕ → Action Rio (List ℕ)
terminated maxlen l = if ltb (length l) maxlen then pure l else λ rp. fault

-- `rio_readlineb`. Where it meets the end of the file at once it leaves `usrbuf` as it is, and here
-- the line is empty.
unfoldable pub rio_readlineb : ℕ → Action Rio (List ℕ)
unfolding get_line
rio_readlineb maxlen = do line ← get_line maxlen; terminated maxlen line

-- `if (... < 0) unix_error(...)`, the wrappers `Rio_read`, `Rio_write` and `Rio_readlineb`.
abbrev pub or_exit : {S A : Type 0} → Outcome S A → Outcome S A
or_exit (ok a s) = ok a s
or_exit (err e s) = exited
or_exit abort = abort
or_exit exited = exited
or_exit fault = fault
