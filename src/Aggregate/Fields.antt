-- ===== src/Aggregate/Fields.antt =====
-- The accumulators of `_bucket_observations`, one by one: what each is of all observations.
use swelter.Prelude.{◌≡◌, refl, List, Option, none, some}
use swelter.Prelude.Group.{all_at, AreFilled}
use swelter.Float.{Float}
use swelter.Models.{Observation}
use swelter.Aggregate.{
  CellKey, same_key, Buckets, no_buckets, Setting, destination, place_to, bucket_observations,
  goes_trusted, goes_provisional, goes_suspicious,
}
use swelter.Aggregate.Placed.{placed, gathered, all_at-bucket_from, bucket_from-AreFilled}

module _ (float : Float) (setting : Setting float) where
  open float use {F}

  trusted_vals_step :
      (b : Buckets float) (o : Observation float) (loc : Option (F × F))
      → (place_to float setting loc b o).trusted_vals
        ≡ placed float setting (goes_trusted float setting) (λ x. x.value) loc o b.trusted_vals
  unfolding place_to placed
  trusted_vals_step b o none = refl
  trusted_vals_step b o (some loc) = refl

  pub trusted_vals_lem :
      (observations : List (Observation float)) (k : CellKey)
      → all_at same_key k (bucket_observations float setting observations).trusted_vals
        ≡ gathered float setting (goes_trusted float setting) (λ o. o.value) k observations
  unfolding bucket_observations
  trusted_vals_lem observations k =
      all_at-bucket_from float setting (goes_trusted float setting) (λ o. o.value)
        (λ b. b.trusted_vals) (λ b o. trusted_vals_step b o (destination float setting o))
        observations (no_buckets float) k

  pub trusted_vals_filled :
      (observations : List (Observation float))
      → AreFilled same_key (bucket_observations float setting observations).trusted_vals
  unfolding bucket_observations
  trusted_vals_filled observations =
      bucket_from-AreFilled float setting (goes_trusted float setting) (λ o. o.value)
        (λ b. b.trusted_vals) (λ b o. trusted_vals_step b o (destination float setting o))
        observations (no_buckets float) tt

  trusted_unc_step :
      (b : Buckets float) (o : Observation float) (loc : Option (F × F))
      → (place_to float setting loc b o).trusted_unc
        ≡ placed float setting (goes_trusted float setting) (λ x. x.uncertainty) loc o b.trusted_unc
  unfolding place_to placed
  trusted_unc_step b o none = refl
  trusted_unc_step b o (some loc) = refl

  pub trusted_unc_lem :
      (observations : List (Observation float)) (k : CellKey)
      → all_at same_key k (bucket_observations float setting observations).trusted_unc
        ≡ gathered float setting (goes_trusted float setting) (λ o. o.uncertainty) k observations
  unfolding bucket_observations
  trusted_unc_lem observations k =
      all_at-bucket_from float setting (goes_trusted float setting) (λ o. o.uncertainty)
        (λ b. b.trusted_unc) (λ b o. trusted_unc_step b o (destination float setting o))
        observations (no_buckets float) k

  provisional_vals_step :
      (b : Buckets float) (o : Observation float) (loc : Option (F × F))
      → (place_to float setting loc b o).provisional_vals
        ≡ placed float setting
            (goes_provisional float setting)
            (λ x. x.value)
            loc
            o
            b.provisional_vals
  unfolding place_to placed
  provisional_vals_step b o none = refl
  provisional_vals_step b o (some loc) = refl

  pub provisional_vals_lem :
      (observations : List (Observation float)) (k : CellKey)
      → all_at same_key k (bucket_observations float setting observations).provisional_vals
        ≡ gathered float setting (goes_provisional float setting) (λ o. o.value) k observations
  unfolding bucket_observations
  provisional_vals_lem observations k =
      all_at-bucket_from float setting (goes_provisional float setting) (λ o. o.value)
        (λ b. b.provisional_vals) (λ b o. provisional_vals_step b o (destination float setting o))
        observations (no_buckets float) k

  pub provisional_vals_filled :
      (observations : List (Observation float))
      → AreFilled same_key (bucket_observations float setting observations).provisional_vals
  unfolding bucket_observations
  provisional_vals_filled observations =
      bucket_from-AreFilled float setting (goes_provisional float setting) (λ o. o.value)
        (λ b. b.provisional_vals) (λ b o. provisional_vals_step b o (destination float setting o))
        observations (no_buckets float) tt

  suspicious_vals_step :
      (b : Buckets float) (o : Observation float) (loc : Option (F × F))
      → (place_to float setting loc b o).suspicious_vals
        ≡ placed float setting
            (goes_suspicious float setting)
            (λ x. x.value)
            loc
            o
            b.suspicious_vals
  unfolding place_to placed
  suspicious_vals_step b o none = refl
  suspicious_vals_step b o (some loc) = refl

  pub suspicious_vals_lem :
      (observations : List (Observation float)) (k : CellKey)
      → all_at same_key k (bucket_observations float setting observations).suspicious_vals
        ≡ gathered float setting (goes_suspicious float setting) (λ o. o.value) k observations
  unfolding bucket_observations
  suspicious_vals_lem observations k =
      all_at-bucket_from float setting (goes_suspicious float setting) (λ o. o.value)
        (λ b. b.suspicious_vals) (λ b o. suspicious_vals_step b o (destination float setting o))
        observations (no_buckets float) k

  pub suspicious_vals_filled :
      (observations : List (Observation float))
      → AreFilled same_key (bucket_observations float setting observations).suspicious_vals
  unfolding bucket_observations
  suspicious_vals_filled observations =
      bucket_from-AreFilled float setting (goes_suspicious float setting) (λ o. o.value)
        (λ b. b.suspicious_vals) (λ b o. suspicious_vals_step b o (destination float setting o))
        observations (no_buckets float) tt

  suspicious_flags_step :
      (b : Buckets float) (o : Observation float) (loc : Option (F × F))
      → (place_to float setting loc b o).suspicious_flags
        ≡ placed float setting (goes_suspicious float setting) (λ x. x.qc) loc o b.suspicious_flags
  unfolding place_to placed
  suspicious_flags_step b o none = refl
  suspicious_flags_step b o (some loc) = refl

  pub suspicious_flags_lem :
      (observations : List (Observation float)) (k : CellKey)
      → all_at same_key k (bucket_observations float setting observations).suspicious_flags
        ≡ gathered float setting (goes_suspicious float setting) (λ o. o.qc) k observations
  unfolding bucket_observations
  suspicious_flags_lem observations k =
      all_at-bucket_from float setting (goes_suspicious float setting) (λ o. o.qc)
        (λ b. b.suspicious_flags) (λ b o. suspicious_flags_step b o (destination float setting o))
        observations (no_buckets float) k
