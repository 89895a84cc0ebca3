-- ===== src/Warmup/Tests.antt =====
-- Concrete lists of points and texts of warmup/.
use ece344lab.Common.{
  ℕ, zero, suc, ◌||◌, ◌+◌, ◌-◌, ◌*◌, ◌≡◌, refl, List, [], ◌∷◌, arith, if◌then◌else◌, ltb, ◌==◌,
}
use ece344lab.Common.Int.{pos, negsuc}
use ece344lab.Warmup.Points.{
  Doubles, Point, Node, node_of, sp_add_point, sp_remove_first, sp_remove_last, sp_remove_by_index,
  delete_behind, sp_delete_duplicates,
}
use ece344lab.Warmup.Points.Order.{IsWeakOrder}
use ece344lab.Warmup.Points.Sorted.{Sorted, PutIn, sp_add_point-Inserts}
use ece344lab.Warmup.Points.Remove.{Removes, sp_remove_by_index-Removes, remove_ends-by_index}
use ece344lab.Warmup.Points.Distinct.{Deletes, sp_delete_duplicates-Deletes}
use ece344lab.Common.Text.{same_text, until_zero}
use ece344lab.Warmup.WordCount.{chars, wc_init, wc_output}
use ece344lab.Warmup.WordCount.Words.{cut, words}
use ece344lab.Warmup.WordCount.Table.{numbers, one_line, count}
use ece344lab.Warmup.WordCount.Counts.{wc_output-counts, wc_output-whole}

-- Whole numbers for doubles, with the root rounded down.
abbrev root_below : ℕ → ℕ → ℕ
root_below zero n = 0
root_below (suc k) n = let rest = root_below k n in if ltb n (suc k * suc k) then rest else suc k

abbrev whole : Doubles ℕ
whole = record {
  lt = ltb;
  eq = ◌==◌;
  plus = ◌+◌;
  times = ◌*◌;
  minus = ◌-◌;
  sqrt = λ n. root_below n n;
}

ltb-IsWeakOrder : IsWeakOrder ltb ◌==◌
ltb-IsWeakOrder = record {
  asym = λ a b h. ground arith;
  equal = λ a b. ground arith;
  le_trans = λ a b c h k. ground arith;
}

abbrev near : Point ℕ
near = record { x = 0; y = 1 }

abbrev far : Point ℕ
far = record { x = 3; y = 4 }

abbrev middle : Point ℕ
middle = record { x = 2; y = 0 }

abbrev two_points : List (Node ℕ)
two_points = node_of whole near ∷ (node_of whole far ∷ [])

sp_add_point-Inserts_example :
    Sorted whole (sp_add_point whole middle two_points)
    × PutIn whole (node_of whole middle) two_points (sp_add_point whole middle two_points)
sp_add_point-Inserts_example =
    sp_add_point-Inserts whole ltb-IsWeakOrder middle two_points ((refl, tt), (tt, tt))

sp_remove_by_index-Removes_example : Removes 0 two_points (sp_remove_by_index (negsuc 0) two_points)
sp_remove_by_index-Removes_example = sp_remove_by_index-Removes (negsuc 0) two_points

both_ends :
    (sp_remove_first two_points ≡ sp_remove_by_index (pos 0) two_points)
    × (sp_remove_last two_points ≡ sp_remove_by_index (pos 1) two_points)
both_ends = remove_ends-by_index two_points

abbrev doubled : List (Node ℕ)
doubled = node_of whole near ∷ (node_of whole near ∷ (node_of whole far ∷ []))

sp_delete_duplicates-Deletes_example : Deletes whole doubled (sp_delete_duplicates whole doubled)
sp_delete_duplicates-Deletes_example =
    sp_delete_duplicates-Deletes whole ltb-IsWeakOrder doubled
      ((refl, (refl, tt)), ((refl, tt), (tt, tt)))

one_goes : (sp_delete_duplicates whole doubled).0 ≡ 1
unfolding sp_delete_duplicates delete_behind
one_goes = refl

-- `ab ab `, and then what is past the end.
abbrev text : ℕ → ℕ
text i = if i == 0 || i == 3 then 97 else if i == 1 || i == 4 then 98 else 32

abbrev ab : List ℕ
ab = 97 ∷ (98 ∷ [])

-- Of the first five characters the last `b` is lost.
wc_output-counts_example :
    numbers ab (wc_output (wc_init text 5)) ≡ one_line (count ab (words (chars text 0 4)))
wc_output-counts_example = wc_output-counts text 5 ab

whole_text : numbers ab (wc_output (wc_init text 6)) ≡ one_line (count ab (words (chars text 0 6)))
whole_text = wc_output-whole text 5 ab refl

one_ab : count ab (words (chars text 0 4)) ≡ 1
unfolding count words cut chars until_zero same_text
one_ab = refl

two_abs : count ab (words (chars text 0 6)) ≡ 2
unfolding count words cut chars until_zero same_text
two_abs = refl
