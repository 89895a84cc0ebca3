-- ===== src/Warmup/Points.antt =====
-- warmup/sorted_points.c and the comparisons of warmup/point.c: a list of points in the order of
-- their distance from the origin. The arithmetic of doubles and `sqrt` are parameters. `malloc`
-- succeeds. The list is what hangs behind the head that `sp_init` makes.
pub mod Order
pub mod Sorted
pub mod Distinct
pub mod Remove
use ece344lab.Common.{
  ℕ, zero, suc, ◌+◌, Bool, true, false, not, List, [], ◌∷◌, Option, none, some, ◌&&◌, ◌||◌,
  if◌then◌else◌,
}
use ece344lab.Common.Int.{ℤ, pos, negsuc}

-- What the code uses of `double` and of `sqrt`: `<`, `==`, `+`, `*`, `-`.
pub record Doubles (F : Type 0) : Type 0 where
  pub lt : F → F → Bool
  pub eq : F → F → Bool
  pub plus : F → F → F
  pub times : F → F → F
  pub minus : F → F → F
  pub sqrt : F → F

pub record Point (F : Type 0) : Type 0 where
  pub x : F
  pub y : F

-- `struct sorted_points` past the head
pub record Node (F : Type 0) : Type 0 where
  pub p : Point F
  pub distance : F

module _ {F : Type 0} (d : Doubles F) where
  -- `sqrt(x*x+y*y)`
  abbrev pub from_origin : Point F → F
  from_origin p = d.sqrt (d.plus (d.times p.x p.x) (d.times p.y p.y))

  abbrev pub node_of : Point F → Node F
  node_of p = record { p = p; distance = from_origin p }

  abbrev pub point_translate : Point F → F → F → Point F
  point_translate p x y = record { x = d.plus p.x x; y = d.plus p.y y }

  abbrev pub point_distance : Point F → Point F → F
  point_distance p1 p2 = d.sqrt (
      d.plus (d.times (d.minus p1.x p2.x) (d.minus p1.x p2.x))
        (d.times (d.minus p1.y p2.y) (d.minus p1.y p2.y)))

  abbrev pub point_compare : Point F → Point F → ℤ
  point_compare p1 p2 =
      if d.lt (from_origin p2) (from_origin p1)
      then pos 1
      else if d.lt (from_origin p1) (from_origin p2)
      then negsuc 0
      else pos 0

  -- The first test of `sp_add_point`, on a list that is not empty.
  abbrev pub goes_first : Node F → Node F → Bool
  goes_first new temp =
      d.lt new.distance temp.distance || (d.eq new.distance temp.distance && d.lt new.p.x temp.p.x)

  -- The break inside the loop.
  abbrev pub stops_at : Node F → Node F → Bool
  stops_at new temp =
      d.eq temp.distance new.distance
      && (if d.lt new.p.x temp.p.x then true else d.eq new.p.x temp.p.x && d.lt new.p.y temp.p.y)

  -- The loop goes past this node.
  abbrev pub goes_past : Node F → Node F → Bool
  goes_past new temp =
      (d.lt temp.distance new.distance || d.eq temp.distance new.distance)
      && not (stops_at new temp)

  -- The loop and the two links after it.
  unfoldable pub insert_from : Node F → List (Node F) → List (Node F)
  insert_from new [] = new ∷ []
  insert_from new (temp ∷ l) =
      let rest = insert_from new l in if goes_past new temp then temp ∷ rest else new ∷ (temp ∷ l)

  unfoldable pub add_node : Node F → List (Node F) → List (Node F)
  unfolding insert_from
  add_node new [] = new ∷ []
  add_node new (temp ∷ l) =
      if goes_first new temp then new ∷ (temp ∷ l) else insert_from new (temp ∷ l)

  abbrev pub sp_add_point : Point F → List (Node F) → List (Node F)
  sp_add_point p l = add_node (node_of p) l

  -- `*prev` and what follows it, `temp` first, without the points that are as the one before; and
  -- how many they were.
  abbrev pub same_point : Node F → Node F → Bool
  same_point prev temp = d.eq prev.p.x temp.p.x && d.eq prev.p.y temp.p.y

  abbrev pub one_more : ℕ × List (Node F) → ℕ × List (Node F)
  one_more (record_count, l) = (record_count + 1, l)

  abbrev pub keep : Node F → ℕ × List (Node F) → ℕ × List (Node F)
  keep temp (record_count, l) = (record_count, temp ∷ l)

  unfoldable pub delete_behind : Node F → List (Node F) → ℕ × List (Node F)
  delete_behind prev [] = (0, [])
  delete_behind prev (temp ∷ l) =
      let rest = delete_behind (if same_point prev temp then prev else temp) l in
      if same_point prev temp then one_more rest else keep temp rest

  unfoldable pub sp_delete_duplicates : List (Node F) → ℕ × List (Node F)
  unfolding delete_behind
  sp_delete_duplicates [] = (0, [])
  sp_delete_duplicates (temp ∷ l) = keep temp (delete_behind temp l)

-- The functions that remove: the point that `*ret` gets, or `none` for a return of 0, and the list.
unfoldable pub sp_remove_first : {F : Type 0} → List (Node F) → Option (Point F) × List (Node F)
sp_remove_first [] = (none, [])
sp_remove_first (temp ∷ l) = (some temp.p, l)

abbrev pub behind_node :
    {F : Type 0} → Node F → Option (Point F) × List (Node F) → Option (Point F) × List (Node F)
behind_node prev (ret, l) = (ret, prev ∷ l)

unfoldable pub sp_remove_last : {F : Type 0} → List (Node F) → Option (Point F) × List (Node F)
sp_remove_last [] = (none, [])
sp_remove_last (temp ∷ []) = (some temp.p, [])
sp_remove_last (prev ∷ (temp ∷ l)) = behind_node prev (sp_remove_last (temp ∷ l))

-- The loop of `sp_remove_by_index`, of `rounds` rounds, with `temp` first.
unfoldable pub remove_at : {F : Type 0} → ℕ → List (Node F) → Option (Point F) × List (Node F)
remove_at rounds [] = (none, [])
remove_at zero (temp ∷ l) = (some temp.p, l)
remove_at (suc rounds) (temp ∷ []) = (none, temp ∷ [])
remove_at (suc rounds) (temp ∷ (next ∷ l)) = behind_node temp (remove_at rounds (next ∷ l))

-- A negative index makes no round, like 0.
unfoldable pub sp_remove_by_index :
    {F : Type 0} → ℤ → List (Node F) → Option (Point F) × List (Node F)
unfolding sp_remove_first remove_at
sp_remove_by_index index [] = (none, [])
sp_remove_by_index (pos zero) (temp ∷ l) = sp_remove_first (temp ∷ l)
sp_remove_by_index (pos (suc k)) (temp ∷ l) = remove_at (suc k) (temp ∷ l)
sp_remove_by_index (negsuc k) (temp ∷ l) = remove_at zero (temp ∷ l)
