-- ===== src/Warmup/Points/Sorted.antt =====
-- The list of warmup/sorted_points.c stays in order.
use ece344lab.Common.{
  ◌≡◌, refl, sym, ap, subst, ◌∙◌, inl, inr, true, false, not, List, [], ◌∷◌, ◌++◌, Bool-cases,
}
use ece344lab.Warmup.Points.{
  Doubles, Point, Node, node_of, goes_first, goes_past, insert_from, add_node, sp_add_point,
}
use ece344lab.Warmup.Points.Order.{
  IsWeakOrder, comes_before, before-IsWeakOrder, goes_past-before, goes_first-before,
}

module _ {F : Type 0} (d : Doubles F) where
  -- No node of the list comes before this one.
  abbrev pub Leads : Node F → List (Node F) → Type 0
  Leads a [] = Unit {0}
  Leads a (b ∷ l) = (comes_before d b a ≡ false) × Leads a l

  abbrev pub Sorted : List (Node F) → Type 0
  Sorted [] = Unit {0}
  Sorted (a ∷ l) = Leads a l × Sorted l

  -- The list with the new node between two parts of it.
  abbrev pub PutIn : Node F → List (Node F) → List (Node F) → Type 0
  PutIn new l r =
      (before : List (Node F)) × ((after : List (Node F)) × (l ≡ before ++ after)
        × (r ≡ before ++ (new ∷ after)))

  PutIn-behind : (a new : Node F) (l r : List (Node F)) → PutIn new l r → PutIn new (a ∷ l) (a ∷ r)
  PutIn-behind a new l r (b, (c, e, f)) = (a ∷ b, (c, ap (λ x. a ∷ x) e, ap (λ x. a ∷ x) f))

  Leads-PutIn :
      (a new : Node F) (l r b c : List (Node F))
      → r ≡ b ++ (new ∷ c)
      → Leads a (b ++ c)
      → comes_before d new a ≡ false
      → Leads a (b ++ (new ∷ c))
  Leads-PutIn a new l r [] c e h k = (k, h)
  Leads-PutIn a new l r (x ∷ b) c e h k = (h.0, Leads-PutIn a new l (b ++ (new ∷ c)) b c refl h.1 k)

  module _ (o : IsWeakOrder d.lt d.eq) where
    Leads-trans :
        (a b : Node F) (l : List (Node F)) → comes_before d b a ≡ false → Leads b l → Leads a l
    Leads-trans a b [] h k = tt
    Leads-trans a b (c ∷ l) h k =
        ((before-IsWeakOrder d o).le_trans a b c h k.0, Leads-trans a b l h k.1)

    Inserts : Node F → List (Node F) → List (Node F) → Type 0
    Inserts new l r = Sorted r × PutIn new l r

    insert-Inserts :
        (new : Node F) (l : List (Node F)) → Sorted l → Inserts new l (insert_from d new l)
    unfolding insert_from Inserts
    insert-Inserts new [] s = ((tt, tt), ([], ([], refl, refl)))
    insert-Inserts new (t ∷ l) s = elim (Bool-cases (comes_before d new t)) [
      | inl first ↦
          let stop : goes_past d new t ≡ false = goes_past-before d o new t ∙ ap not first in
          let behind_new : comes_before d t new ≡ false =
            (before-IsWeakOrder d o).asym new t first in
          rw stop (
            ((behind_new, Leads-trans new t l behind_new s.0), (s.0, s.1)),
            ([], (t ∷ l, refl, refl)),
          )
      | inr later ↦
          let pass : goes_past d new t ≡ true = goes_past-before d o new t ∙ ap not later in
          let (sorted, (b, (c, e, f))) = insert-Inserts new l s.1 in
          rw pass (
            (
              subst (Leads t) (sym f)
                  (Leads-PutIn t new l (insert_from d new l) b c f (subst (Leads t) e s.0) later),
              sorted,
            ),
            PutIn-behind t new l (insert_from d new l) (b, (c, e, f)),
          )
    ]

    add-insert : (new : Node F) (l : List (Node F)) → add_node d new l ≡ insert_from d new l
    unfolding add_node insert_from
    add-insert new [] = refl
    add-insert new (t ∷ l) = elim (Bool-cases (goes_first d new t)) [
      | inl first ↦
          let stop : goes_past d new t ≡ false =
            goes_past-before d o new t ∙ ap not (goes_first-before d o new t first) in
          rw (first, stop) refl
      | inr later ↦ rw later refl
    ]

    -- With no NaN, `sp_add_point` puts the point with its distance between two parts of the list and
    -- leaves the rest as it was, and a list in the order of distance, x and y stays in that order.
    pub sp_add_point-Inserts :
        (p : Point F) (l : List (Node F))
        → Sorted l
        → Sorted (sp_add_point d p l) × PutIn (node_of d p) l (sp_add_point d p l)
    unfolding Inserts
    sp_add_point-Inserts p l s = rw (add-insert (node_of d p) l) (insert-Inserts (node_of d p) l s)
