-- ===== src/Integrity/Evidence.antt =====
-- The head of the chain of daily digests is evidence of the whole history: two histories with one
-- head are the same, or a collision of the hash or of the JSON text is at hand.
use mathlib.Core.Bool.{true≢false}
use mathlib.Core.List.{reverse, reverse_aux, reverse-reverse}
use swelter.Prelude.{
  ◌≡◌, ◌≢◌, refl, sym, ap, subst, ◌∙◌, map, String, List, [], ◌∷◌, get_or, drop, All, Among, Bool,
  true, false, Option, none, some, str_eq, arith, Bool-cases, ◌⊎◌, inl, inr,
}
use swelter.Prelude.Text.{chars, join}
use swelter.Prelude.Text.Order.{str_eq→eq, str_eq_refl}
use swelter.Prelude.Text.Join.{join_suffix}
use swelter.Prelude.Sort.{sort_by, All-sort_by}
use swelter.Float.{Float}
use swelter.Models.{Observation}
use swelter.Store.{Table, iter_rows}
use swelter.Prelude.Group.{gather}
use swelter.Integrity.{
  DayDigest, digests_from, head, last_or, history, by_day, text_le, map_option, daily_digests,
}

abbrev Day : Type 0
Day = String × List String

pub texts_cases : (s t : String) → (s ≡ t) ⊎ (s ≢ t)
texts_cases s t = elim (Bool-cases (str_eq s t)) [
  | inl e ↦ inl (str_eq→eq s t e)
  | inr e ↦ inr (λ p. true≢false (sym (subst (λ u. str_eq s u ≡ true) p (str_eq_refl s)) ∙ e))
]

is_empty : List String → Bool
is_empty [] = true
is_empty (x ∷ xs) = false

lists_cases : (xs ys : List String) → (xs ≡ ys) ⊎ (xs ≢ ys)
unfolding is_empty
lists_cases [] [] = inl refl
lists_cases [] (y ∷ ys) = inr (λ p. true≢false (ap is_empty p))
lists_cases (x ∷ xs) [] = inr (λ p. true≢false (sym (ap is_empty p)))
lists_cases (x ∷ xs) (y ∷ ys) = elim (texts_cases x y) [
  | inr e ↦ inr (λ p. e (ap (λ l. get_or l 0 x) p))
  | inl e ↦ elim (lists_cases xs ys) [
    | inr f ↦ inr (λ p. f (ap (drop 1) p))
    | inl f ↦ inl (λ i. e i ∷ f i)
  ]
]

abbrev value_or {ℓ} : {A : Type ℓ} → A → Option A → A
value_or d none = d
value_or d (some a) = a

All-reverse_aux {ℓ κ} :
    {A : Type ℓ} (P : A → Type κ) (xs ys : List A) → All P xs → All P ys → All P (reverse_aux xs ys)
All-reverse_aux P [] ys h k = k
All-reverse_aux P (x ∷ xs) ys h k = All-reverse_aux P xs (x ∷ ys) h.1 (h.0, k)

module _ (sha256 : String → String) (canonical : List String → String) where
  -- The chain behind one more day.
  link : String → Day → String
  link chain d = sha256 (join (join chain d.0) (sha256 (canonical d.1)))

  chain_after : String → List Day → String
  chain_after chain [] = chain
  chain_after chain (d ∷ ds) = chain_after (link chain d) ds

  -- The same from the last day backwards.
  chain_back : List Day → String
  chain_back [] = ""
  chain_back (d ∷ rs) = link (chain_back rs) d

  last-chain_after :
      (ds : List Day) (e : DayDigest)
      → (last_or e (digests_from sha256 canonical e.chain ds)).chain ≡ chain_after e.chain ds
  unfolding digests_from chain_after link
  last-chain_after [] e = refl
  last-chain_after ((day, hashes) ∷ ds) e = last-chain_after ds _

  head-chain_after :
      (ds : List Day) → head (digests_from sha256 canonical "" ds) ≡ chain_after "" ds
  unfolding digests_from chain_after head link
  head-chain_after [] = refl
  head-chain_after ((day, hashes) ∷ ds) = last-chain_after ds _

  chain_after-chain_back :
      (rs ds : List Day) → chain_after (chain_back rs) ds ≡ chain_back (reverse_aux ds rs)
  unfolding chain_after chain_back
  chain_after-chain_back rs [] = refl
  chain_after-chain_back rs (d ∷ ds) = chain_after-chain_back (d ∷ rs) ds

  head-chain_back :
      (ds : List Day) → head (digests_from sha256 canonical "" ds) ≡ chain_back (reverse ds)
  unfolding chain_back
  head-chain_back ds = head-chain_after ds ∙ chain_after-chain_back [] ds

  -- What SHA-256 is applied to for one more day: the JSON text of its hashes, and the chain so far
  -- with the day and the digest of that text.
  abbrev chained : String → Day → String
  chained chain d = join (join chain d.0) (sha256 (canonical d.1))

  -- The texts that SHA-256 is applied to for the days, the last day first.
  abbrev hashed_texts : List Day → List String
  hashed_texts [] = []
  hashed_texts (d ∷ rs) = canonical d.1 ∷ chained (chain_back rs) d ∷ hashed_texts rs

  -- Two different texts with one SHA-256, one hashed for either list of days.
  abbrev SharedHash : List Day → List Day → Type 0
  SharedHash rs ss =
      (x : String) × (y : String) × (x ≢ y)
      × (sha256 x ≡ sha256 y)
      × Among (λ t. t ≡ x) (hashed_texts rs)
      × Among (λ t. t ≡ y) (hashed_texts ss)

  -- Two different lists of hashes with one JSON text, one of a day of either list of days.
  abbrev SharedText : List Day → List Day → Type 0
  SharedText rs ss =
      (xs : List String) × (ys : List String) × (xs ≢ ys)
      × (canonical xs ≡ canonical ys)
      × Among (λ d. d.1 ≡ xs) rs
      × Among (λ d. d.1 ≡ ys) ss

  abbrev Shared : List Day → List Day → Type 0
  Shared rs ss = SharedHash rs ss ⊎ SharedText rs ss

  Shared-earlier : (r s : Day) (rs ss : List Day) → Shared rs ss → Shared (r ∷ rs) (s ∷ ss)
  Shared-earlier r s rs ss (inl (x, y, differ, same, left, right)) =
      inl (x, y, differ, same, inr (inr left), inr (inr right))
  Shared-earlier r s rs ss (inr (xs, ys, differ, same, left, right)) =
      inr (xs, ys, differ, same, inr left, inr right)

  one_hash :
      (rs ss : List Day) (x y : String)
      → Among (λ t. t ≡ x) (hashed_texts rs)
      → Among (λ t. t ≡ y) (hashed_texts ss)
      → sha256 x ≡ sha256 y
      → (x ≡ y) ⊎ Shared rs ss
  one_hash rs ss x y left right same = elim (texts_cases x y) [
    | inl e ↦ inl e
    | inr e ↦ inr (inl (x, y, e, same, left, right))
  ]

  one_text :
      (r s : Day) (rs ss : List Day)
      → canonical r.1 ≡ canonical s.1
      → (r.1 ≡ s.1) ⊎ Shared (r ∷ rs) (s ∷ ss)
  one_text r s rs ss same = elim (lists_cases r.1 s.1) [
    | inl e ↦ inl e
    | inr e ↦ inr (inr (r.1, s.1, e, same, inl refl, inl refl))
  ]

  -- Two histories are the same, or there is a collision among what is hashed for them.
  pub Evident : List Day → List Day → Type 0
  Evident past other = (past ≡ other) ⊎ Shared (reverse past) (reverse other)

  module _ (hash_chars : (s : String) → chars (sha256 s) ≡ 64) where
    -- A day is written with ten characters.
    abbrev IsDated : Day → Type 0
    IsDated d = chars d.0 ≡ 10

    link-Evident :
        (r s : Day) (rs ss : List Day)
        → IsDated r
        → IsDated s
        → link (chain_back rs) r ≡ link (chain_back ss) s
        → ((chain_back rs ≡ chain_back ss) × (r ≡ s)) ⊎ Shared (r ∷ rs) (s ∷ ss)
    unfolding link
    link-Evident r s rs ss h l same =
        elim (one_hash (r ∷ rs) (s ∷ ss) (chained (chain_back rs) r) (chained (chain_back ss) s)
          (inr (inl refl)) (inr (inl refl)) same) [
            | inr bad ↦ inr bad
            | inl parts ↦
                let (front, back) =
                  join_suffix (join (chain_back rs) r.0) (join (chain_back ss) s.0) _ _
                    (hash_chars (canonical r.1) ∙ sym (hash_chars (canonical s.1))) parts in
                let (chains, days) =
                  join_suffix (chain_back rs) (chain_back ss) r.0 s.0 (h ∙ sym l) front in
                elim (one_hash (r ∷ rs) (s ∷ ss) (canonical r.1) (canonical s.1) (inl refl)
                  (inl refl) back) [
                    | inr bad ↦ inr bad
                    | inl texts ↦ elim (one_text r s rs ss texts) [
                      | inr bad ↦ inr bad
                      | inl hashes ↦ inl (chains, λ i. (days i, hashes i))
                    ]
                  ]
          ]

    chars-link : (c : String) (d : Day) → chars (link c d) ≡ 64
    unfolding link
    chars-link c d = hash_chars _

    chain_back-Evident :
        (rs ss : List Day)
        → All IsDated rs
        → All IsDated ss
        → chain_back rs ≡ chain_back ss
        → (rs ≡ ss) ⊎ Shared rs ss
    unfolding chain_back chars
    chain_back-Evident [] [] h l same = inl refl
    chain_back-Evident [] (s ∷ ss) h l same =
        absurd (omega (arith, ap chars same, chars-link (chain_back ss) s))
    chain_back-Evident (r ∷ rs) [] h l same =
        absurd (omega (arith, ap chars same, chars-link (chain_back rs) r))
    chain_back-Evident (r ∷ rs) (s ∷ ss) h l same = elim (link-Evident r s rs ss h.0 l.0 same) [
      | inr bad ↦ inr bad
      | inl (chains, days) ↦ elim (chain_back-Evident rs ss h.1 l.1 chains) [
        | inr bad ↦ inr (Shared-earlier r s rs ss bad)
        | inl rest ↦ inl (λ i. days i ∷ rest i)
      ]
    ]

    module _ (float : Float) (day_of : String → String)
        (day_chars : (s : String) → chars (day_of s) ≡ 10) where
      gather-IsDated :
          (day hash : String) (days : List Day)
          → IsDated (day, [])
          → All IsDated days
          → All IsDated (gather str_eq day hash days)
      unfolding gather
      gather-IsDated day hash [] h k = (h, tt)
      gather-IsDated day hash ((d, hashes) ∷ days) h k = elim (Bool-cases (str_eq d day)) [
        | inl e ↦ rw (e, All) k
        | inr e ↦ rw (e, All) (k.0, gather-IsDated day hash days h k.1)
      ]

      by_day-IsDated :
          (rows : List (Observation float × String)) (days : List Day)
          → All IsDated days
          → All IsDated (by_day float day_of days rows)
      unfolding by_day
      by_day-IsDated [] days h = h
      by_day-IsDated ((obs, hash) ∷ rows) days h =
          by_day-IsDated rows _
            (gather-IsDated (day_of obs.timestamp) hash days (day_chars obs.timestamp) h)

      sorted_hashes-IsDated :
          (days : List Day)
          → All IsDated days
          → All IsDated (map (λ d. (d.0, sort_by text_le d.1)) days)
      sorted_hashes-IsDated [] h = tt
      sorted_hashes-IsDated (d ∷ days) h = (h.0, sorted_hashes-IsDated days h.1)

      history-IsDated :
          (rows : List (Observation float × String)) → All IsDated (history float day_of rows)
      unfolding history
      history-IsDated rows =
          sorted_hashes-IsDated _ (All-sort_by _ IsDated _ (by_day-IsDated rows [] tt))

      -- The hypotheses are that SHA-256 gives 64 characters, that a day has ten, and that the rows
      -- of two tables can be read. If the heads of their daily digests are the same, then so are
      -- their histories, that is the days and the hashes stored under each day. Or else one text
      -- that is hashed for the first history and another that is hashed for the second have one
      -- SHA-256, or the hashes of a day of the first and other ones of a day of the second have one
      -- JSON text.
      pub head-Evident :
          (t u : Table float) (rows other : List (Observation float × String))
          → iter_rows float t ≡ some rows
          → iter_rows float u ≡ some other
          → map_option head (daily_digests sha256 canonical float day_of t)
            ≡ map_option head (daily_digests sha256 canonical float day_of u)
          → Evident (history float day_of rows) (history float day_of other)
      unfolding daily_digests Evident
      head-Evident t u rows other h k same =
          let past = history float day_of rows in
          let other_past = history float day_of other in
          let heads : head (digests_from sha256 canonical "" past)
              ≡ head (digests_from sha256 canonical "" other_past) =
            ap (value_or "") (rw (h, k) at same) in
          elim (chain_back-Evident (reverse past) (reverse other_past)
            (All-reverse_aux IsDated past [] (history-IsDated rows) tt)
            (All-reverse_aux IsDated other_past [] (history-IsDated other) tt)
            (sym (head-chain_back past) ∙ heads ∙ head-chain_back other_past)) [
              | inr bad ↦ inr bad
              | inl back ↦
                  inl (sym (reverse-reverse past) ∙ ap reverse back ∙ reverse-reverse other_past)
            ]
