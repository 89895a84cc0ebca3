-- ===== src/Warmup/Points/Order.antt =====
-- The order of warmup/sorted_points.h: by the distance, then by x, then by y.
use ece344lab.Common.{◌≡◌, Bool, true, false, not, ◌&&◌, ◌||◌, arith}
use ece344lab.Warmup.Points.{Doubles, Node, goes_first, goes_past}

-- `<` and `==` of doubles other than NaN: `<` is asymmetric, `==` holds where neither is less, and
-- what is not above something not above a third is not above the third.
pub record IsWeakOrder {A : Type 0} (lt eq : A → A → Bool) : Type 0 where
  pub asym : (a b : A) → lt a b ≡ true → lt b a ≡ false
  pub equal : (a b : A) → eq a b ≡ (not (lt a b) && not (lt b a))
  pub le_trans : (a b c : A) → lt b a ≡ false → lt c b ≡ false → lt c a ≡ false

module _ {A : Type 0} (lt eq lt2 eq2 : A → A → Bool) (o : IsWeakOrder lt eq)
    (o2 : IsWeakOrder lt2 eq2) where
  abbrev lex : A → A → Bool
  lex a b = lt a b || (eq a b && lt2 a b)

  abbrev both : A → A → Bool
  both a b = eq a b && eq2 a b

  lex-asym : (a b : A) → lex a b ≡ true → lex b a ≡ false
  lex-asym a b h = ground (arith, o.asym a b, o.equal a b, o.equal b a, o2.asym a b)

  lex-equal : (a b : A) → both a b ≡ (not (lex a b) && not (lex b a))
  lex-equal a b = ground (arith, o.equal a b, o.equal b a, o2.equal a b)

  lex-le_trans : (a b c : A) → lex b a ≡ false → lex c b ≡ false → lex c a ≡ false
  lex-le_trans a b c h k = ground (
    arith,
    o.le_trans a b c,
    o.le_trans c a b,
    o.le_trans b c a,
    o.equal a b,
    o.equal b c,
    o.equal a c,
    o.equal b a,
    o.equal c b,
    o.equal c a,
    o2.le_trans a b c,
  )

  lex-IsWeakOrder : IsWeakOrder lex both
  lex-IsWeakOrder = record { asym = lex-asym; equal = lex-equal; le_trans = lex-le_trans }

pull-IsWeakOrder :
    {A B : Type 0} (lt eq : A → A → Bool) (f : B → A)
    → IsWeakOrder lt eq
    → IsWeakOrder (λ (a : B). λ (b : B). lt (f a) (f b)) (λ (a : B). λ (b : B). eq (f a) (f b))
pull-IsWeakOrder lt eq f o = record {
  asym = λ a b. o.asym (f a) (f b);
  equal = λ a b. o.equal (f a) (f b);
  le_trans = λ a b c. o.le_trans (f a) (f b) (f c);
}

module _ {F : Type 0} (d : Doubles F) where
  -- The first comes strictly before the second.
  abbrev pub comes_before : Node F → Node F → Bool
  comes_before a b =
      d.lt a.distance b.distance
      || (d.eq a.distance b.distance
          && (d.lt a.p.x b.p.x || (d.eq a.p.x b.p.x && d.lt a.p.y b.p.y)))

  -- Neither comes before the other.
  abbrev pub same_place : Node F → Node F → Bool
  same_place a b = d.eq a.distance b.distance && (d.eq a.p.x b.p.x && d.eq a.p.y b.p.y)

  module _ (o : IsWeakOrder d.lt d.eq) where
    pub before-IsWeakOrder : IsWeakOrder comes_before same_place
    before-IsWeakOrder =
        lex-IsWeakOrder _ _ _ _ (pull-IsWeakOrder d.lt d.eq (λ (a : Node F). a.distance) o) (
          lex-IsWeakOrder _ _ _ _ (pull-IsWeakOrder d.lt d.eq (λ (a : Node F). a.p.x) o)
            (pull-IsWeakOrder d.lt d.eq (λ (a : Node F). a.p.y) o))

    pub goes_past-before : (new temp : Node F) → goes_past d new temp ≡ not (comes_before new temp)
    goes_past-before new temp = ground (
      arith,
      o.asym new.distance temp.distance,
      o.equal new.distance temp.distance,
      o.equal temp.distance new.distance,
    )

    pub goes_first-before :
        (new temp : Node F) → goes_first d new temp ≡ true → comes_before new temp ≡ true
    goes_first-before new temp h = ground arith
