-- ===== src/Warmup/Points/Remove.antt =====
-- The functions of warmup/sorted_points.c that remove one point.
use ece344lab.Common.{
  ℕ, zero, suc, ◌-◌, ◌<◌, ◌≤◌, ◌≡◌, refl, sym, ap, subst, ◌∙◌, inl, inr, ◌⊎◌, List, [], ◌∷◌, ◌++◌,
  Option, none, some, arith, length,
}
use ece344lab.Common.Int.{ℤ, pos, negsuc}
use ece344lab.Warmup.Points.{
  Doubles, Point, Node, behind_node, sp_remove_first, remove_at, sp_remove_by_index, sp_remove_last,
}
use ece344lab.Warmup.Points.Sorted.{Leads, Sorted}

-- The place_of that an index names to the code: a negative one the first.
abbrev pub place_of : ℤ → ℕ
place_of (pos k) = k
place_of (negsuc k) = 0

module _ {F : Type 0} where
  -- The node at place_of `k` is gone and its point returned, or the list has no such place_of and is as
  -- it was.
  abbrev pub Removes : ℕ → List (Node F) → Option (Point F) × List (Node F) → Type 0
  Removes k l (ret, r) =
      ((k < length l)
        × ((before : List (Node F)) × ((a : Node F) × ((after : List (Node F)) × (l
                  ≡ before ++ (a ∷ after))
                × (length before ≡ k)
                × (ret ≡ some a.p)
                × (r ≡ before ++ after)))))
      ⊎ ((length l ≤ k) × (ret ≡ none) × (r ≡ l))

  Removes-behind :
      (k : ℕ) (a : Node F) (l : List (Node F)) (o : Option (Point F) × List (Node F))
      → Removes k l o
      → Removes (suc k) (a ∷ l) (behind_node a o)
  Removes-behind k a l (ret, r) (inl (lt, (b, (x, (c, e, n, f, g))))) = inl (
    omega (arith, lt),
    (a ∷ b, (x, (c, ap (λ y. a ∷ y) e, omega (arith, n), f, ap (λ y. a ∷ y) g))),
  )
  Removes-behind k a l (ret, r) (inr (le, f, g)) = inr (omega (arith, le), f, ap (λ y. a ∷ y) g)

  remove_at-Removes : (k : ℕ) (l : List (Node F)) → Removes k l (remove_at k l)
  unfolding remove_at
  remove_at-Removes zero [] = inr (omega arith, refl, refl)
  remove_at-Removes (suc k) [] = inr (omega arith, refl, refl)
  remove_at-Removes zero (a ∷ l) = inl (omega arith, ([], (a, (l, refl, refl, refl, refl))))
  remove_at-Removes (suc k) (a ∷ []) = inr (omega arith, refl, refl)
  remove_at-Removes (suc k) (a ∷ (b ∷ l)) =
      Removes-behind k a (b ∷ l) (remove_at k (b ∷ l)) (remove_at-Removes k (b ∷ l))

  by_index-at :
      (index : ℤ) (l : List (Node F)) → sp_remove_by_index index l ≡ remove_at (place_of index) l
  unfolding sp_remove_by_index sp_remove_first remove_at
  by_index-at (pos zero) [] = refl
  by_index-at (pos (suc k)) [] = refl
  by_index-at (negsuc k) [] = refl
  by_index-at (pos zero) (a ∷ l) = refl
  by_index-at (pos (suc k)) (a ∷ l) = refl
  by_index-at (negsuc k) (a ∷ l) = refl

  -- `sp_remove_by_index` removes the node at its index and returns the point of it, and keeps the
  -- others in their order; from the length on it returns 0 and the list is as it was. A negative
  -- index removes the first.
  pub sp_remove_by_index-Removes :
      (index : ℤ) (l : List (Node F)) → Removes (place_of index) l (sp_remove_by_index index l)
  sp_remove_by_index-Removes index l =
      rw (by_index-at index l) (remove_at-Removes (place_of index) l)

  remove_last-at :
      (a : Node F) (l : List (Node F)) → sp_remove_last (a ∷ l) ≡ remove_at (length l) (a ∷ l)
  unfolding sp_remove_last remove_at
  remove_last-at a [] = refl
  remove_last-at a (b ∷ l) = rw (remove_last-at b l) refl

  -- `sp_remove_first` and `sp_remove_last` are `sp_remove_by_index` of the first and the last place_of.
  pub remove_ends-by_index :
      (l : List (Node F))
      → (sp_remove_first l ≡ sp_remove_by_index (pos 0) l)
        × (sp_remove_last l ≡ sp_remove_by_index (pos (length l - 1)) l)
  unfolding sp_remove_first sp_remove_by_index sp_remove_last remove_at
  remove_ends-by_index [] = (refl, refl)
  remove_ends-by_index (a ∷ l) =
      let last : length l ≡ length (a ∷ l) - 1 = omega arith in
      (
        refl,
        remove_last-at a l
            ∙ ap (λ k. remove_at k (a ∷ l)) last
            ∙ sym (by_index-at (pos (length (a ∷ l) - 1)) (a ∷ l)),
      )

  module _ (d : Doubles F) where
    Leads-without :
        (a x : Node F) (b c : List (Node F)) → Leads d a (b ++ (x ∷ c)) → Leads d a (b ++ c)
    Leads-without a x [] c h = h.1
    Leads-without a x (y ∷ b) c h = (h.0, Leads-without a x b c h.1)

    Sorted-without :
        (x : Node F) (b c : List (Node F)) → Sorted d (b ++ (x ∷ c)) → Sorted d (b ++ c)
    Sorted-without x [] c s = s.1
    Sorted-without x (y ∷ b) c s = (Leads-without y x b c s.0, Sorted-without x b c s.1)

    Removes-Sorted :
        (k : ℕ) (l : List (Node F)) (o : Option (Point F) × List (Node F))
        → Removes k l o
        → Sorted d l
        → Sorted d (o.1)
    Removes-Sorted k l (ret, r) (inl (lt, (b, (x, (c, e, n, f, g))))) s =
        subst (Sorted d) (sym g) (Sorted-without x b c (subst (Sorted d) e s))
    Removes-Sorted k l (ret, r) (inr (le, f, g)) s = subst (Sorted d) (sym g) s

    -- A removal by any index leaves a list in the order in that order.
    pub sp_remove_by_index-Sorted :
        (index : ℤ) (l : List (Node F)) → Sorted d l → Sorted d ((sp_remove_by_index index l).1)
    sp_remove_by_index-Sorted index l s =
        Removes-Sorted (place_of index) l (sp_remove_by_index index l)
          (sp_remove_by_index-Removes index l) s
