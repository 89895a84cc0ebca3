-- ===== src/Warmup/Points/Distinct.antt =====
-- `sp_delete_duplicates` of warmup/sorted_points.c on a list in order.
use ece344lab.Common.{
  ℕ, ◌+◌, ◌≡◌, refl, sym, subst, inl, inr, ◌⊎◌, true, false, List, [], ◌∷◌, arith, Bool-cases,
  length,
}
use ece344lab.Warmup.Points.{
  Doubles, Node, same_point, one_more, keep, delete_behind, sp_delete_duplicates,
}
use ece344lab.Warmup.Points.Order.{IsWeakOrder, comes_before, same_place, before-IsWeakOrder}
use ece344lab.Warmup.Points.Sorted.{Leads, Sorted}

-- The list is part of the other, in its order.
pub data Part {A : Type 0} : List A → List A → Type 0 where
  none_left : Part [] []
  left_out : {a : A} {r l : List A} → Part r l → Part r (a ∷ l)
  kept : {a : A} {r l : List A} → Part r l → Part (a ∷ r) (a ∷ l)

module _ {F : Type 0} (d : Doubles F) where
  -- This node comes strictly before each of the list.
  abbrev pub Precedes : Node F → List (Node F) → Type 0
  Precedes a [] = Unit {0}
  Precedes a (b ∷ l) = (comes_before d a b ≡ true) × Precedes a l

  abbrev pub Strict : List (Node F) → Type 0
  Strict [] = Unit {0}
  Strict (a ∷ l) = Precedes a l × Strict l

  -- Some node of the list has the same point.
  abbrev pub Present : Node F → List (Node F) → Type 0
  Present t [] = ⊥
  Present t (a ∷ l) = (same_point d a t ≡ true) ⊎ Present t l

  abbrev pub AllPresent : List (Node F) → List (Node F) → Type 0
  AllPresent [] r = Unit {0}
  AllPresent (t ∷ l) r = Present t r × AllPresent l r

  abbrev pub Deletes : List (Node F) → ℕ × List (Node F) → Type 0
  Deletes l (n, r) = Strict r × Part r l × AllPresent l r × (n + length r ≡ length l)

  AllPresent-more : (a : Node F) (l r : List (Node F)) → AllPresent l r → AllPresent l (a ∷ r)
  AllPresent-more a [] r h = tt
  AllPresent-more a (t ∷ l) r h = (inr h.0, AllPresent-more a l r h.1)

  module _ (o : IsWeakOrder d.lt d.eq) where
    abbrev ord : IsWeakOrder (comes_before d) (same_place d)
    ord = before-IsWeakOrder d o

    same_point_self : (a : Node F) → same_point d a a ≡ true
    same_point_self a =
        ground
          (arith, o.equal a.p.x a.p.x, o.equal a.p.y a.p.y, o.asym a.p.x a.p.x, o.asym a.p.y a.p.y)

    -- A neighbour that is not the same point comes strictly later.
    apart :
        (a b : Node F)
        → comes_before d b a ≡ false
        → same_point d a b ≡ false
        → comes_before d a b ≡ true
    apart a b h k = ground (arith, ord.equal a b)

    Precedes-trans :
        (a b : Node F) (l : List (Node F)) → comes_before d a b ≡ true → Leads d b l → Precedes a l
    Precedes-trans a b [] h k = tt
    Precedes-trans a b (c ∷ l) h k =
        (ground (arith, ord.le_trans b c a k.0), Precedes-trans a b l h k.1)

    Precedes-Part : (a : Node F) (r l : List (Node F)) → Part r l → Precedes a l → Precedes a r
    Precedes-Part a r l none_left h = h
    Precedes-Part a r (b ∷ l) (left_out p) h = Precedes-Part a r l p h.1
    Precedes-Part a (_ ∷ r) (b ∷ l) (kept p) h = (h.0, Precedes-Part a r l p h.1)

    -- What may be left of a list behind a node that is kept.
    abbrev Thins : Node F → List (Node F) → ℕ × List (Node F) → Type 0
    Thins prev l (n, r) =
        Precedes prev r × Strict r × Part r l × AllPresent l (prev ∷ r) × (n + length r ≡ length l)

    Thins-same :
        (prev t : Node F) (l : List (Node F)) (w : ℕ × List (Node F))
        → same_point d prev t ≡ true
        → Thins prev l w
        → Thins prev (t ∷ l) (one_more d w)
    Thins-same prev t l (n, r) h (a, b, c, e, f) = (a, b, left_out c, (inl h, e), omega (arith, f))

    Thins-other :
        (prev t : Node F) (l : List (Node F)) (w : ℕ × List (Node F))
        → comes_before d prev t ≡ true
        → Leads d t l
        → Thins t l w
        → Thins prev (t ∷ l) (keep d t w)
    Thins-other prev t l (n, r) h leads (a, b, c, e, f) = (
      (h, Precedes-Part prev r l c (Precedes-trans prev t l h leads)),
      (a, b),
      kept c,
      (inr (inl (same_point_self t)), AllPresent-more prev l (t ∷ r) e),
      omega (arith, f),
    )

    delete-same :
        (prev t : Node F) (l : List (Node F))
        → same_point d prev t ≡ true
        → delete_behind d prev (t ∷ l) ≡ one_more d (delete_behind d prev l)
    unfolding delete_behind
    delete-same prev t l h = rw h refl

    delete-other :
        (prev t : Node F) (l : List (Node F))
        → same_point d prev t ≡ false
        → delete_behind d prev (t ∷ l) ≡ keep d t (delete_behind d t l)
    unfolding delete_behind
    delete-other prev t l h = rw h refl

    delete-nil : (prev : Node F) → delete_behind d prev [] ≡ (0, [])
    unfolding delete_behind
    delete-nil prev = refl

    delete-Thins :
        (prev : Node F) (l : List (Node F))
        → Leads d prev l
        → Sorted d l
        → Thins prev l (delete_behind d prev l)
    delete-Thins prev [] h s =
        subst (Thins prev []) (sym (delete-nil prev)) (tt, tt, none_left, tt, refl)
    delete-Thins prev (t ∷ l) h s = elim (Bool-cases (same_point d prev t)) [
      | inl same ↦
          subst (Thins prev (t ∷ l)) (sym (delete-same prev t l same))
            (Thins-same prev t l (delete_behind d prev l) same (delete-Thins prev l h.1 s.1))
      | inr other ↦ subst (Thins prev (t ∷ l)) (sym (delete-other prev t l other)) (
          Thins-other prev t l (delete_behind d t l) (apart prev t h.0 other) s.0
            (delete-Thins t l s.0 s.1))
    ]

    Deletes-keep :
        (a : Node F) (l : List (Node F)) (w : ℕ × List (Node F))
        → Thins a l w
        → Deletes (a ∷ l) (keep d a w)
    Deletes-keep a l (n, r) (p, q, c, e, f) =
        ((p, q), kept c, (inl (same_point_self a), e), omega (arith, f))

    -- With no NaN and a list in order, `sp_delete_duplicates` leaves part of the list, in its order,
    -- in which each node comes strictly before the next ones, so no point is there twice; each point
    -- of the list is still there, and the result is the number of nodes that went.
    pub sp_delete_duplicates-Deletes :
        (l : List (Node F)) → Sorted d l → Deletes l (sp_delete_duplicates d l)
    unfolding sp_delete_duplicates
    sp_delete_duplicates-Deletes [] s = (tt, none_left, tt, refl)
    sp_delete_duplicates-Deletes (a ∷ l) s =
        Deletes-keep a l (delete_behind d a l) (delete-Thins a l s.0 s.1)
