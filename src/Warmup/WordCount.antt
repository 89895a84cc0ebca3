-- ===== src/Warmup/WordCount.antt =====
-- warmup/wc.c: the words of a text and how often each is in it, in a table of chains by a hash.
-- `malloc` succeeds, and the text has fewer than 2^31 characters, so that no `int` overflows.
pub mod Words
pub mod Loop
pub mod Table
pub mod Counts
use ece344lab.Common.{
  ℕ, zero, suc, ◌+◌, ◌-◌, ◌%◌, Bool, true, false, not, List, [], ◌∷◌, ◌++◌, ◌&&◌, ◌||◌, ltb, ◌==◌,
  if◌then◌else◌,
}
use ece344lab.Common.Memory.{update}
use ece344lab.Common.Text.{hash_from, same_text, until_zero, isspace}

-- `struct entry`; `entry_init` makes it with 1.
pub record WordEntry : Type 0 where
  pub word : List ℕ
  pub num_seen : ℕ

abbrev pub entry_init : List ℕ → WordEntry
entry_init word = record { word = word; num_seen = 1 }

pub hashtable_size : ℕ
hashtable_size = 100000000

unfoldable pub hash : List ℕ → ℕ
unfolding hash_from hashtable_size
hash str = hash_from 5381 str % hashtable_size

-- `struct wc`
abbrev pub WordTable : Type 0
WordTable = ℕ → List WordEntry

abbrev pub seen_again : WordEntry → WordEntry
seen_again temp = record temp { num_seen = temp.num_seen + 1 }

-- `insertEntry` on the chain of the hash: empty, at its last entry, and before.
unfoldable pub insert_chain : List ℕ → List WordEntry → List WordEntry
unfolding same_text
insert_chain single_word [] = entry_init single_word ∷ []
insert_chain single_word (temp ∷ []) =
    if same_text single_word temp.word
    then seen_again temp ∷ []
    else temp ∷ (entry_init single_word ∷ [])
insert_chain single_word (temp ∷ (next ∷ l)) =
    let rest = insert_chain single_word (next ∷ l) in
    if same_text single_word temp.word then seen_again temp ∷ (next ∷ l) else temp ∷ rest

unfoldable pub insert_entry : List ℕ → WordTable → WordTable
unfolding insert_chain hash
insert_entry single_word table =
    update table (hash single_word) (insert_chain single_word (table (hash single_word)))

-- The characters from an address on.
unfoldable pub chars : (ℕ → ℕ) → ℕ → ℕ → List ℕ
chars word_array from zero = []
chars word_array from (suc n) = word_array from ∷ chars word_array (from + 1) n

-- `malloc`, `strncpy` and the 0 after it
unfoldable pub copy_word : (ℕ → ℕ) → ℕ → ℕ → List ℕ
unfolding chars until_zero
copy_word word_array from char_count = until_zero (chars word_array from char_count)

-- The variables of the loop of `wc_init`, with `moving_word_head` as an index, and the table.
pub record Scan : Type 0 where
  pub char_count : ℕ
  pub more_space : ℕ
  pub moving_word_head : ℕ
  pub table : WordTable

-- One round.
unfoldable pub scan_char : (ℕ → ℕ) → ℕ → ℕ → Scan → Scan
unfolding copy_word insert_entry
scan_char word_array size i s =
    if not (s.char_count == 0) && (isspace (word_array i) || i == size - 1)
    then record {
      char_count = 0;
      more_space = 0;
      moving_word_head = s.moving_word_head + (s.char_count + 1 + s.more_space);
      table =
          insert_entry (copy_word word_array (s.moving_word_head + s.more_space) s.char_count)
            s.table;
    }
    else if s.char_count == 0 && isspace (word_array i)
    then record s { more_space = s.more_space + 1 }
    else record s { char_count = s.char_count + 1 }

unfoldable pub scan_from : (ℕ → ℕ) → ℕ → ℕ → ℕ → Scan → Scan
unfolding scan_char
scan_from word_array size zero i s = s
scan_from word_array size (suc rounds) i s =
    scan_from word_array size rounds (i + 1) (scan_char word_array size i s)

abbrev pub no_words : Scan
no_words = record { char_count = 0; more_space = 0; moving_word_head = 0; table = λ i. [] }

unfoldable pub wc_init : (ℕ → ℕ) → ℕ → WordTable
unfolding scan_from
wc_init word_array size = (scan_from word_array size size 0 no_words).table

-- The lines that `wc_output` prints, each the word and the number of an entry.
unfoldable pub output_from : ℕ → ℕ → WordTable → List WordEntry
output_from zero i table = []
output_from (suc rounds) i table = table i ++ output_from rounds (i + 1) table

unfoldable pub wc_output : WordTable → List WordEntry
unfolding output_from hashtable_size
wc_output table = output_from hashtable_size 0 table
