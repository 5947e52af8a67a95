-- ===== src/Aggregate/Placed.antt =====
-- The accumulators of `_bucket_observations`, against the comprehensions that they stand for.
use swelter.Prelude.{
  ◌≡◌, refl, sym, ap, subst, ◌∙◌, String, List, [], ◌∷◌, ◌++◌, append_assoc, append-nil, map,
  keep_if, keep_if_pass, keep_if_fail, Bool, true, false, ◌&&◌, if◌then◌else◌, Option, none, some,
  str_eq, both_true, Bool-cases, inl, inr,
}
use swelter.Prelude.Text.Order.{str_eq→eq, str_eq_refl}
use swelter.Prelude.Group.{
  all_at, gather, all_at-gather_self, all_at-gather_other, AreFilled, gather-AreFilled,
}
use swelter.Float.{Float}
use swelter.Models.{Observation}
use swelter.Aggregate.{
  CellKey, same_key, Lists, Buckets, Setting, add_when, destination, key_of, place_one, bucket_from,
}

pub same_key_refl : (k : CellKey) → same_key k k ≡ true
same_key_refl k = rw (str_eq_refl k.0, str_eq_refl k.1, str_eq_refl k.2) refl

abbrev key : String → String → String → CellKey
key x y z = (x, y, z)

pub same_key→eq : (a b : CellKey) → same_key a b ≡ true → a ≡ b
same_key→eq a b h =
    let (first, r) = both_true (str_eq a.0 b.0 && str_eq a.1 b.1) (str_eq a.2 b.2) h in
    let (p, q) = both_true (str_eq a.0 b.0) (str_eq a.1 b.1) first in
    ap (λ x. key x a.1 a.2) (str_eq→eq _ _ p)
    ∙ ap (λ y. key b.0 y a.2) (str_eq→eq _ _ q)
    ∙ ap (λ z. key b.0 b.1 z) (str_eq→eq _ _ r)

module _ (float : Float) (setting : Setting float) where
  open float use {F}

  module _ {V : Type 0} (hit : Observation float → Bool) (f : Observation float → V) where
    -- The accumulator behind an observation with this destination.
    unfoldable pub placed : Option (F × F) → Observation float → Lists float V → Lists float V
    placed none o lists = lists
    placed (some loc) o lists = add_when float (hit o) (key_of float setting loc o) (f o) lists

    unfoldable pub goes_to : Option (F × F) → CellKey → Observation float → Bool
    goes_to none k o = false
    goes_to (some loc) k o = hit o && same_key (key_of float setting loc o) k

    -- An observation goes to a cell, hour and parameter.
    abbrev pub goes : CellKey → Observation float → Bool
    goes k o = goes_to (destination float setting o) k o

    -- What the observations that go there bring, in their order.
    abbrev pub gathered : CellKey → List (Observation float) → List V
    gathered k os = map f (keep_if (goes k) os)

    abbrev single : Bool → V → List V
    single test v = if test then v ∷ [] else []

    gathered-cons :
        (k : CellKey) (o : Observation float) (os : List (Observation float))
        → gathered k (o ∷ os) ≡ single (goes k o) (f o) ++ gathered k os
    gathered-cons k o os = elim (Bool-cases (goes k o)) [
      | inl e ↦ ap (map f) (keep_if_pass (goes k) o os e) ∙ rw e refl
      | inr e ↦ ap (map f) (keep_if_fail (goes k) o os e) ∙ rw e refl
    ]

    all_at-placed :
        (dest : Option (F × F)) (k : CellKey) (o : Observation float) (lists : Lists float V)
        → all_at same_key k (placed dest o lists)
          ≡ all_at same_key k lists ++ single (goes_to dest k o) (f o)
    unfolding placed goes_to add_when
    all_at-placed none k o lists = sym (append-nil _)
    all_at-placed (some loc) k o lists =
        let own = key_of float setting loc o in
        elim (Bool-cases (hit o)) [
          | inr e ↦ rw (placed, add_when, goes_to, e) (sym (append-nil _))
          | inl e ↦ elim (Bool-cases (same_key own k)) [
            | inl t ↦
                rw (placed, add_when, goes_to, e, t)
                  (subst
                    (λ z.
                      all_at same_key z (gather same_key own (f o) lists)
                      ≡ all_at same_key z lists ++ f o ∷ [])
                    (same_key→eq own k t)
                    (all_at-gather_self same_key own (f o) lists (same_key_refl own)))
            | inr t ↦
                rw (placed, add_when, goes_to, e, t)
                  (all_at-gather_other same_key k own (f o) lists
                      (λ j q. ap (λ z. same_key z k) (same_key→eq j own q) ∙ t) t
                    ∙ sym (append-nil _))
          ]
        ]

    module _ (field : Buckets float → Lists float V)
        (step : (b : Buckets float) (o : Observation float)
          → field (place_one float setting b o)
            ≡ placed (destination float setting o) o (field b)) where
      pub all_at-bucket_from :
          (os : List (Observation float)) (b : Buckets float) (k : CellKey)
          → all_at same_key k (field (bucket_from float setting os b))
            ≡ all_at same_key k (field b) ++ gathered k os
      unfolding bucket_from
      all_at-bucket_from [] b k = sym (append-nil _)
      all_at-bucket_from (o ∷ os) b k =
          all_at-bucket_from os (place_one float setting b o) k
          ∙ ap (λ l. all_at same_key k l ++ gathered k os) (step b o)
          ∙ ap (λ l. l ++ gathered k os) (all_at-placed (destination float setting o) k o (field b))
          ∙ append_assoc (all_at same_key k (field b)) (single (goes k o) (f o)) (gathered k os)
          ∙ ap (λ l. all_at same_key k (field b) ++ l) (sym (gathered-cons k o os))

      placed-AreFilled :
          (dest : Option (F × F)) (o : Observation float) (lists : Lists float V)
          → AreFilled same_key lists
          → AreFilled same_key (placed dest o lists)
      unfolding placed add_when
      placed-AreFilled none o lists h = h
      placed-AreFilled (some loc) o lists h = elim (Bool-cases (hit o)) [
        | inl e ↦ rw (placed, add_when, e) (gather-AreFilled same_key _ _ lists h)
        | inr e ↦ rw (placed, add_when, e) h
      ]

      pub bucket_from-AreFilled :
          (os : List (Observation float)) (b : Buckets float)
          → AreFilled same_key (field b)
          → AreFilled same_key (field (bucket_from float setting os b))
      unfolding bucket_from
      bucket_from-AreFilled [] b h = h
      bucket_from-AreFilled (o ∷ os) b h = bucket_from-AreFilled os (place_one float setting b o) (
          subst (AreFilled same_key) (sym (step b o))
            (placed-AreFilled (destination float setting o) o (field b) h))
