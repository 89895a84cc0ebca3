-- ===== src/Fs/ReadWrite/Contents.antt =====
-- `testfs_read_data` of fs/read_write.c returns the bytes of the file.
use ece344lab.Common.{
  ℕ, zero, suc, ◌+◌, ◌-◌, ◌*◌, ◌/◌, ◌%◌, ◌^◌, ◌≤◌, ◌<◌, ◌≡◌, refl, ap, sym, subst, true, false, inl,
  inr, ◌&&◌, arith, ltb, leb, if◌then◌else◌, Bool-cases,
}
use ece344lab.Common.Memory.{copy}
use ece344lab.Common.Bytes.{Memory}
use ece344lab.Common.Int.{ℤ, pos, to_s32, to_s64, gtb_ℤ}
use ece344lab.Common.Action.{Outcome, Action, ok, err, abort, exited, fault, continue}
use ece344lab.Fs.Layout.{block_size}
use ece344lab.Fs.Block.{zero_block}
use ece344lab.Fs.Inode.{Io}
use ece344lab.Fs.ReadWrite.{return_block}
use ece344lab.Fs.ReadWrite.Data.{
  max_bytes, clip, copy_single, read_next, read_tail, read_rest, read_many, read_single,
  testfs_read_data,
}
use ece344lab.Fs.ReadWrite.Map.{content, phys, Reachable, Reads, read_block-Reads}

-- Byte `p` of the file.
unfoldable pub file_byte : Io → ℕ → ℕ
file_byte s p = content s (p / block_size) (p % block_size)

-- Bytes `lo` to `hi - 1` of the buffer are those of the file from `start + lo`; the state and the
-- other bytes are as before.
abbrev pub Fills : Io → ℕ → ℕ → ℕ → Memory → Memory → Type 0
Fills s start lo hi buf m =
    (x : ℕ) → m x ≡ (if leb lo x && ltb x hi then file_byte s (start + x) else buf x)

abbrev FillsRest : Io → ℕ → ℕ → ℕ → Memory → Outcome Io Memory → Type 0
FillsRest s start lo hi buf (ok m t) = (t ≡ s) × Fills s start lo hi buf m
FillsRest s start lo hi buf (err e t) = ⊥
FillsRest s start lo hi buf abort = ⊥
FillsRest s start lo hi buf exited = ⊥
FillsRest s start lo hi buf fault = ⊥

-- What follows a successful read of a block.
after-Reads :
    {B : Type 0} (P : Outcome Io B → Type 0) (s : Io) (nr : ℤ) (bytes : Memory)
    (k : ℕ × Memory → Action Io B) (r : Outcome Io (ℕ × Memory))
    → Reads s nr bytes r
    → ((p : ℕ) (b : Memory) → ((j : ℕ) → j < block_size → b j ≡ bytes j) → P (k (p, b) s))
    → P (continue k r)
after-Reads P s nr bytes k (ok (p, b) t) h then_P =
    subst (λ u. P (k (p, b) u)) (sym h.0) (then_P p b h.2)
after-Reads P s nr bytes k (err e t) h then_P = absurd h
after-Reads P s nr bytes k abort h then_P = absurd h
after-Reads P s nr bytes k exited h then_P = absurd h
after-Reads P s nr bytes k fault h then_P = absurd h

small_number : (s : Io) (n : ℕ) → Reachable s n → to_s32 n ≡ pos n
small_number s n r = ground (arith, r.below)

module _ (s : Io) (block_nr block_ix : ℕ) (hix : block_ix < block_size) where
  abbrev start : ℕ
  start = block_nr * block_size + block_ix

  abbrev at : ℕ → ℕ
  at i = block_size * i - block_ix

  -- A byte of a block that was read is one of the file.
  block_byte :
      (i : ℕ) (b : Memory) (x : ℕ)
      → 0 < i
      → ((j : ℕ) → j < block_size → b j ≡ content s (block_nr + i) j)
      → at i ≤ x
      → x < at i + block_size
      → b (x - at i) ≡ file_byte s (start + x)
  unfolding file_byte
  block_byte i b x hi same lo up =
      let e : (start + x) / block_size ≡ block_nr + i = omega arith in
      let f : (start + x) % block_size ≡ x - at i = omega arith in
      rw (e, f) (same (x - at i) (omega arith))

  -- One whole block, and then the rest.
  join :
      (i left : ℕ) (buf b m : Memory)
      → 0 < i
      → block_size < left
      → ((j : ℕ) → j < block_size → b j ≡ content s (block_nr + i) j)
      → Fills s start
          (at (i + 1))
          (at (i + 1) + (left - block_size))
          (copy buf (at i) b 0 block_size)
          m
      → Fills s start (at i) (at i + left) buf m
  join i left buf b m hi hl same f x = ground (arith, f x, block_byte i b x hi same)

  -- The tail.
  last :
      (i left : ℕ) (buf b : Memory)
      → 0 < i
      → left ≤ block_size
      → ((j : ℕ) → j < block_size → b j ≡ content s (block_nr + i) j)
      → Fills s start (at i) (at i + left) buf (copy buf (at i) b 0 left)
  last i left buf b hi hl same x = ground (arith, block_byte i b x hi same)

  read_rest-FillsRest :
      (fuel i left : ℕ) (buf block : Memory)
      → 0 < i
      → 0 < left
      → left ≤ fuel * block_size
      → block_size * i + left ≤ 2 ^ 31
      → ((n : ℕ)
          → block_nr + i ≤ n
          → n * block_size < (block_nr + i) * block_size + left
          → Reachable s n)
      → FillsRest s start
          (at i)
          (at i + left)
          buf
          (read_rest fuel block_nr block_ix i left buf block s)
  unfolding read_rest
  read_rest-FillsRest zero i left buf block hi hl hf hs r = absurd (omega arith)
  read_rest-FillsRest (suc fuel) i left buf block hi hl hf hs r =
      let here = r (block_nr + i) (omega arith) (omega arith) in
      rw (small_number s (block_nr + i) here) (
        after-Reads (FillsRest s start (at i) (at i + left) buf) s (phys s (block_nr + i))
          (content s (block_nr + i)) (read_next next block_ix i left buf) _
          (read_block-Reads s (block_nr + i) block here)
          (step (λ b more.
            read_rest-FillsRest fuel (i + 1) (left - block_size) (copy buf (at i) b 0 block_size) b
              (omega arith) (omega arith) (omega arith) (omega arith)
              (λ n lo up. r n (omega arith) (omega arith)))))
    where
      next : Memory → Memory → Action Io Memory
      next m b = read_rest fuel block_nr block_ix (i + 1) (left - block_size) m b

      fits : ltb (block_size * i) (2 ^ 31) ≡ true
      fits = ground arith

      joined :
          (b : Memory) (o : Outcome Io Memory)
          → block_size < left
          → ((j : ℕ) → j < block_size → b j ≡ content s (block_nr + i) j)
          → FillsRest s start
              (at (i + 1))
              (at (i + 1) + (left - block_size))
              (copy buf (at i) b 0 block_size)
              o
          → FillsRest s start (at i) (at i + left) buf o
      joined b (ok m t) more same f = (f.0, join i left buf b m hi more same f.1)
      joined b (err e t) more same f = f
      joined b abort more same f = f
      joined b exited more same f = f
      joined b fault more same f = f

      step :
          ((b : Memory)
            → block_size < left
            → FillsRest s start
                (at (i + 1))
                (at (i + 1) + (left - block_size))
                (copy buf (at i) b 0 block_size)
                (next (copy buf (at i) b 0 block_size) b s))
          → (p : ℕ) (b : Memory) → ((j : ℕ) → j < block_size → b j ≡ content s (block_nr + i) j)
          → FillsRest s start (at i) (at i + left) buf (read_next next block_ix i left buf (p, b) s)
      step rec p b same = elim (Bool-cases (ltb block_size left)) [
        | inl more ↦ rw (fits, more) (joined b _ (ground arith) same (rec b (ground arith)))
        | inr tail ↦ rw (fits, tail) (refl, last i left buf b hi (ground arith) same)
      ]

-- `size` bytes of the file from `start` are in the buffer, and nothing else has changed.
abbrev pub ReadsFile : Io → ℕ → ℕ → Memory → Outcome Io (ℕ × Memory) → Type 0
ReadsFile s from size buf (ok (n, m) t) = (n ≡ size) × (t ≡ s) × Fills s from 0 size buf m
ReadsFile s from size buf (err e t) = ⊥
ReadsFile s from size buf abort = ⊥
ReadsFile s from size buf exited = ⊥
ReadsFile s from size buf fault = ⊥

-- Every block that holds one of `size` bytes from `start`, or the first one, can be read.
abbrev pub RangeReachable : Io → ℕ → ℕ → Type 0
RangeReachable s from size =
    (n : ℕ) → from / block_size ≤ n → n ≤ (from + (size - 1)) / block_size → Reachable s n

module _ (s : Io) (first size : ℕ) (buf : Memory) (small : size + block_size ≤ 2 ^ 31)
    (range : RangeReachable s first size) where
  abbrev nr : ℕ
  nr = first / block_size

  abbrev ix : ℕ
  ix = first % block_size

  head_range : Reachable s nr
  head_range = range nr (omega arith) (omega arith)

  returned : to_s32 size ≡ pos size
  returned = ground arith

  head_byte :
      (b : Memory) (x : ℕ)
      → ((j : ℕ) → j < block_size → b j ≡ content s nr j)
      → ix + x < block_size
      → b (ix + x) ≡ file_byte s (first + x)
  unfolding file_byte
  head_byte b x same lt =
      let e : (first + x) / block_size ≡ nr = omega arith in
      let f : (first + x) % block_size ≡ ix + x = omega arith in rw (e, f) (same (ix + x) lt)

  single-ReadsFile :
      ix + size ≤ block_size → ReadsFile s first size buf (read_single nr ix size buf s)
  unfolding read_single
  single-ReadsFile within = rw (small_number s nr head_range) (
      after-Reads (ReadsFile s first size buf) s (phys s nr) (content s nr)
        (copy_single ix size buf) _ (read_block-Reads s nr zero_block head_range) step)
    where
      fits : leb (ix + size) block_size ≡ true
      fits = ground arith

      filled :
          (b : Memory)
          → ((j : ℕ) → j < block_size → b j ≡ content s nr j)
          → Fills s first 0 size buf (copy buf 0 b ix size)
      filled b same x = ground (arith, head_byte b x same)

      step :
          (p : ℕ) (b : Memory)
          → ((j : ℕ) → j < block_size → b j ≡ content s nr j)
          → ReadsFile s first size buf (copy_single ix size buf (p, b) s)
      step p b same = rw (fits, returned) (refl, refl, filled b same)

  many-ReadsFile : block_size < ix + size → ReadsFile s first size buf (read_many nr ix size buf s)
  unfolding read_many
  many-ReadsFile beyond =
      rw (possible, small_number s nr head_range)
        (after-Reads (ReadsFile s first size buf) s (phys s nr) (content s nr)
          (read_tail nr ix size buf) _ (read_block-Reads s nr zero_block head_range) step)
    where
      possible : ltb max_bytes size ≡ false
      possible = ground arith

      same_place : nr * block_size + ix ≡ first
      same_place = omega arith

      filled :
          (b m : Memory)
          → ((j : ℕ) → j < block_size → b j ≡ content s nr j)
          → Fills s
              (nr * block_size + ix)
              (block_size * 1 - ix)
              (block_size * 1 - ix + (size - (block_size - ix)))
              (copy buf 0 b ix (block_size - ix))
              m
          → Fills s first 0 size buf m
      filled b m same f x =
          let g = f x in
          let h : file_byte s (nr * block_size + ix + x) ≡ file_byte s (first + x) =
            ap (λ p. file_byte s (p + x)) same_place in
          ground (arith, g, h, head_byte b x same)

      joined :
          (b : Memory) (o : Outcome Io Memory)
          → ((j : ℕ) → j < block_size → b j ≡ content s nr j)
          → FillsRest s
              (nr * block_size + ix)
              (block_size * 1 - ix)
              (block_size * 1 - ix + (size - (block_size - ix)))
              (copy buf 0 b ix (block_size - ix))
              o
          → ReadsFile s first size buf (continue (λ m. return_block (to_s32 size) m) o)
      joined b (ok m t) same f = rw returned (refl, f.0, filled b m same f.1)
      joined b (err e t) same f = f
      joined b abort same f = f
      joined b exited same f = f
      joined b fault same f = f

      step :
          (p : ℕ) (b : Memory)
          → ((j : ℕ) → j < block_size → b j ≡ content s nr j)
          → ReadsFile s first size buf (read_tail nr ix size buf (p, b) s)
      step p b same = joined b _ same (
          read_rest-FillsRest s nr ix (omega arith) _ 1 (size - (block_size - ix)) _ b (omega arith)
            (omega arith) (omega arith) (omega arith)
            (λ n lo up. range n (omega arith) (omega arith)))

pub read_data-ReadsFile :
    (s : Io) (first size length_of : ℕ) (buf : Memory)
    → s.node.in_disk.i_size ≡ pos length_of
    → length_of < 2 ^ 63
    → first + size ≤ length_of
    → size + block_size ≤ 2 ^ 31
    → RangeReachable s first size
    → ReadsFile s first size buf (testfs_read_data buf first size s)
unfolding testfs_read_data
read_data-ReadsFile s first size length_of buf len fits inside small range =
    rw cut (elim (Bool-cases (ltb block_size ((first % block_size + size) % 2 ^ 64))) [
      | inl beyond ↦ rw beyond (many-ReadsFile s first size buf small range (ground arith))
      | inr within ↦ rw within (single-ReadsFile s first size buf small range (ground arith))
    ])
  where
    uncut : gtb_ℤ (to_s64 (first + size)) (pos length_of) ≡ false
    uncut = ground arith

    cut : clip first size s.node.in_disk.i_size ≡ size
    cut = rw (len, uncut)
