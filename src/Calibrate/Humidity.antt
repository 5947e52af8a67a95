-- ===== src/Calibrate/Humidity.antt =====
-- Where the humidity of a reading comes from.
use swelter.Prelude.{
  Among-weaken, ap, subst, ◌≡◌, refl, sym, ◌∙◌, List, [], ◌∷◌, Among, All, All-Among, true,
  Bool-cases, Option-cases, inl, inr,
}
use swelter.Prelude.Text.Pairs.{same_pair-parts}
use swelter.Prelude.Dict.{All-assign, value_at-All}
use swelter.Float.{Float}
use swelter.Float.Library.{Library}
use swelter.Calibrate.{
  Registry, Reading, Moment, same_moment, humidity_at, humidity_index, humidity_from,
  counts_as_humidity,
}
use swelter.Calibrate.Explained.{IsMeasured, humidity_of}

module _ (float : Float) (library : Library float) (observations : List (Reading float library))
    (registry : Registry float library) where
  open float use {F}

  IsItem : Moment × F → Type 0
  IsItem (k, rh) =
      Among
        (λ m.
          (counts_as_humidity float library m ≡ true)
          × (m.node_id ≡ k.0)
          × (m.timestamp ≡ k.1)
          × (m.value ≡ rh))
        observations

  own :
      (o : Reading float library) (k : Moment)
      → counts_as_humidity float library o ≡ true
      → k.0 ≡ o.node_id
      → k.1 ≡ o.timestamp
      → Among (λ m. m ≡ o) observations
      → IsItem (k, o.value)
  unfolding IsItem
  own o k e n t h =
      Among-weaken (λ m. m ≡ o) _
        (λ m q. (
          ap (counts_as_humidity float library) q ∙ e,
          ap (λ x. x.node_id) q ∙ sym n,
          ap (λ x. x.timestamp) q ∙ sym t,
          ap (λ x. x.value) q,
        ))
        observations h

  humidity_from-AreItems :
      (os : List (Reading float library)) (index : List (Moment × F))
      → All (λ o. Among (λ m. m ≡ o) observations) os
      → All IsItem index
      → All IsItem (humidity_from float library os index)
  unfolding humidity_from
  humidity_from-AreItems [] index h k = k
  humidity_from-AreItems (o ∷ os) index h k =
      humidity_from-AreItems os _ h.1 (elim (Bool-cases (counts_as_humidity float library o)) [
        | inl e ↦ rw e (
            All-assign same_moment IsItem (o.node_id, o.timestamp) o.value index
              (λ j q.
                let (n, t) = same_pair-parts j (o.node_id, o.timestamp) q in own o j e n t h.0)
              (own o (o.node_id, o.timestamp) e refl refl h.0) k)
        | inr e ↦ rw e k
      ])

  pub humidity_at-IsMeasured :
      (o : Reading float library)
      → IsMeasured float library observations registry o
          (humidity_of float library observations registry o)
  unfolding IsMeasured humidity_at humidity_index IsItem
  humidity_at-IsMeasured o =
      elim (Option-cases (humidity_of float library observations registry o)) [
        | inl e ↦ subst (IsMeasured float library observations registry o) (sym e) tt
        | inr (rh, e) ↦
            let (j, q, m) =
              value_at-All same_moment IsItem (o.node_id, o.timestamp)
                (humidity_index float library observations) rh
                (humidity_from-AreItems observations [] (All-Among observations) tt) e in
            let (n, t) = same_pair-parts j (o.node_id, o.timestamp) q in
            subst (IsMeasured float library observations registry o) (sym e)
              (Among-weaken _ _ (λ x h. (h.0, h.1 ∙ n, h.2 ∙ t, h.3)) observations m)
      ]
