-- ===== src/Prelude/Group.antt =====
-- `defaultdict(list)`: entries gathered under their keys, the keys in the order in which they first
-- came and the entries under a key in theirs.
use swelter.Prelude.Tests.{Bool-cases, if◌then◌else◌}
use mathlib.Core.Logic.{◌≢◌, inl, inr}
use mathlib.Core.Bool.{Bool, true, false}
use mathlib.Core.Option.{none, some}
use mathlib.Core.Path.{◌≡◌, refl}
use swelter.Prelude.Lists.{All, All-weaken, All-append, All-parts}
use swelter.Prelude.Dict.{value_at}
use mathlib.Core.List.{
  List, [], ◌∷◌, ◌++◌, map, cons≢nil, Perm, perm_middle, append_assoc, append-nil,
}
use mathlib.Core.List.Perm

module _ {ℓ κ} {K : Type ℓ} {V : Type κ} (eq : K → K → Bool) where
  -- `grouped[k].append(v)`
  unfoldable pub gather : K → V → List (K × List V) → List (K × List V)
  gather k v [] = (k, v ∷ []) ∷ []
  gather k v ((j, vs) ∷ groups) =
      if eq j k then (j, vs ++ v ∷ []) ∷ groups else (j, vs) ∷ gather k v groups

  module _ (key : V → K) where
    -- The loop over the entries, from the groups made so far.
    unfoldable pub group_from : List (K × List V) → List V → List (K × List V)
    unfolding gather
    group_from groups [] = groups
    group_from groups (v ∷ vs) = group_from (gather (key v) v groups) vs

    unfoldable pub group : List V → List (K × List V)
    unfolding group_from
    group vs = group_from [] vs

  -- All entries, group after group.
  abbrev pub entries : List (K × List V) → List V
  entries [] = []
  entries ((k, vs) ∷ groups) = vs ++ entries groups

  gather-perm :
      (k : K) (v : V) (groups : List (K × List V))
      → Perm (entries (gather k v groups)) (v ∷ entries groups)
  unfolding gather
  gather-perm k v [] = Perm.refl _
  gather-perm k v ((j, vs) ∷ groups) = elim (Bool-cases (eq j k)) [
    | inl e ↦ rw (e, append_assoc) (perm_middle vs (entries groups))
    | inr e ↦ rw e (
        Perm.trans (Perm.append (Perm.refl vs) (gather-perm k v groups))
          (perm_middle vs (entries groups)))
  ]

  module _ (key : V → K) where
    group_from-perm :
        (groups : List (K × List V)) (vs : List V)
        → Perm (entries (group_from key groups vs)) (vs ++ entries groups)
    unfolding group_from
    group_from-perm groups [] = Perm.refl _
    group_from-perm groups (v ∷ vs) = Perm.trans (group_from-perm (gather (key v) v groups) vs) (
        Perm.trans (Perm.append (Perm.refl vs) (gather-perm (key v) v groups))
          (perm_middle vs (entries groups)))

    -- Grouping loses no entry and invents none.
    pub group-perm : (vs : List V) → Perm (entries (group key vs)) vs
    unfolding group
    group-perm vs = rw append-nil at (group_from-perm [] vs)

  All-entries-gather :
      (P : V → Type 0) (k : K) (v : V) (groups : List (K × List V))
      → All P (entries (gather k v groups))
      → P v × All P (entries groups)
  unfolding gather
  All-entries-gather P k v [] h = (h.0, tt)
  All-entries-gather P k v ((j, vs) ∷ groups) h = elim (Bool-cases (eq j k)) [
    | inl e ↦
        let parts = All-parts P (vs ++ v ∷ []) (entries groups) (rw (gather, e) at h) in
        let own = All-parts P vs (v ∷ []) parts.0 in
        (own.1.0, All-append P vs (entries groups) own.0 parts.1)
    | inr e ↦
        let parts = All-parts P vs (entries (gather k v groups)) (rw (gather, e) at h) in
        let rest = All-entries-gather P k v groups parts.1 in
        (rest.0, All-append P vs (entries groups) parts.0 rest.1)
  ]

  All-entries-group_from :
      (P : V → Type 0) (key : V → K) (groups : List (K × List V)) (vs : List V)
      → All P (entries (group_from key groups vs))
      → All P vs × All P (entries groups)
  unfolding group_from
  All-entries-group_from P key groups [] h = (tt, h)
  All-entries-group_from P key groups (v ∷ vs) h =
      let later = All-entries-group_from P key (gather (key v) v groups) vs h in
      let own = All-entries-gather P (key v) v groups later.1 in ((own.0, later.0), own.1)

  -- What holds of every entry of the groups holds of every entry that was grouped.
  pub All-entries-group :
      (P : V → Type 0) (key : V → K) (vs : List V) → All P (entries (group key vs)) → All P vs
  unfolding group
  All-entries-group P key vs h = (All-entries-group_from P key [] vs h).0

  -- `groups.get(k, [])`
  abbrev pub all_at : K → List (K × List V) → List V
  all_at k groups = elim (value_at eq k groups) [ none ↦ [] | some vs ↦ vs ]

  pub all_at-gather_self :
      (k : K) (v : V) (groups : List (K × List V))
      → eq k k ≡ true
      → all_at k (gather k v groups) ≡ all_at k groups ++ v ∷ []
  unfolding gather value_at
  all_at-gather_self k v [] h = rw (gather, all_at, value_at, h) refl
  all_at-gather_self k v ((j, vs) ∷ groups) h = elim (Bool-cases (eq j k)) [
    | inl e ↦ rw (gather, e, all_at, value_at, e) refl
    | inr e ↦ rw (gather, e, all_at, value_at, e) (all_at-gather_self k v groups h)
  ]

  pub all_at-gather_other :
      (i k : K) (v : V) (groups : List (K × List V))
      → ((j : K) → eq j k ≡ true → eq j i ≡ false)
      → eq k i ≡ false
      → all_at i (gather k v groups) ≡ all_at i groups
  unfolding gather value_at
  all_at-gather_other i k v [] h n = rw (gather, all_at, value_at, n) refl
  all_at-gather_other i k v ((j, vs) ∷ groups) h n = elim (Bool-cases (eq j k)) [
    | inl e ↦ rw (gather, e, all_at, value_at, h j e) refl
    | inr e ↦ elim (Bool-cases (eq j i)) [
      | inl f ↦ rw (gather, e, all_at, value_at, f) refl
      | inr f ↦ rw (gather, e, all_at, value_at, f) (all_at-gather_other i k v groups h n)
    ]
  ]

  -- No group is empty.
  abbrev pub AreFilled : List (K × List V) → Type κ
  AreFilled [] = Unit
  AreFilled ((k, vs) ∷ groups) = (vs ≢ []) × AreFilled groups

  append_filled : (vs : List V) (v : V) → vs ++ v ∷ [] ≢ []
  append_filled [] v e = cons≢nil e
  append_filled (x ∷ vs) v e = cons≢nil e

  pub gather-AreFilled :
      (k : K) (v : V) (groups : List (K × List V))
      → AreFilled groups
      → AreFilled (gather k v groups)
  unfolding gather
  gather-AreFilled k v [] h = (λ e. cons≢nil e, tt)
  gather-AreFilled k v ((j, vs) ∷ groups) h = elim (Bool-cases (eq j k)) [
    | inl e ↦ rw (gather, e) (append_filled vs v, h.1)
    | inr e ↦ rw (gather, e) (h.0, gather-AreFilled k v groups h.1)
  ]

  all_at_later :
      (j k : K) (vs : List V) (groups : List (K × List V))
      → vs ≢ []
      → all_at k groups ≢ []
      → all_at k ((j, vs) ∷ groups) ≢ []
  unfolding value_at
  all_at_later j k vs groups h f = elim (Bool-cases (eq j k)) [
    | inl e ↦ rw (all_at, value_at, e) h
    | inr e ↦ rw (all_at, value_at, e) f
  ]

  -- Under each key of groups that are filled there is an entry.
  pub all_at_filled :
      ((k : K) → eq k k ≡ true)
      → (groups : List (K × List V)) → AreFilled groups
      → All (λ k. all_at k groups ≢ []) (map (λ g. g.0) groups)
  unfolding value_at
  all_at_filled same [] h = tt
  all_at_filled same ((j, vs) ∷ groups) h = (
    rw (all_at, value_at, same j) h.0,
    All-weaken _ _ (λ k f. all_at_later j k vs groups h.0 f) (map (λ g. g.0) groups)
        (all_at_filled same groups h.1),
  )

  -- Every entry stands in a group with the key that it has.
  module _ {ι} (Q : K → V → Type ι) where
    abbrev pub AreGrouped : List (K × List V) → Type ι
    AreGrouped groups = All (λ g. All (Q g.0) g.1) groups

    gather-AreGrouped :
        (k : K) (v : V) (groups : List (K × List V))
        → ((j : K) → eq j k ≡ true → Q j v)
        → Q k v
        → AreGrouped groups
        → AreGrouped (gather k v groups)
    unfolding gather
    gather-AreGrouped k v [] same h g = ((h, tt), tt)
    gather-AreGrouped k v ((j, vs) ∷ groups) same h g = elim (Bool-cases (eq j k)) [
      | inl e ↦ rw (gather, e) (All-append (Q j) vs (v ∷ []) g.0 (same j e, tt), g.1)
      | inr e ↦ rw (gather, e) (g.0, gather-AreGrouped k v groups same h g.1)
    ]

    group_from-AreGrouped :
        (key : V → K) (groups : List (K × List V)) (vs : List V)
        → All (λ v. (j : K) → eq j (key v) ≡ true → Q j v) vs
        → All (λ v. Q (key v) v) vs
        → AreGrouped groups
        → AreGrouped (group_from key groups vs)
    unfolding group_from
    group_from-AreGrouped key groups [] same h g = g
    group_from-AreGrouped key groups (v ∷ vs) same h g =
        group_from-AreGrouped key (gather (key v) v groups) vs same.1 h.1
          (gather-AreGrouped (key v) v groups same.0 h.0 g)

    pub group-AreGrouped :
        (key : V → K) (vs : List V)
        → All (λ v. (j : K) → eq j (key v) ≡ true → Q j v) vs
        → All (λ v. Q (key v) v) vs
        → AreGrouped (group key vs)
    unfolding group
    group-AreGrouped key vs same h = group_from-AreGrouped key [] vs same h tt
