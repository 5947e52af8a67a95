-- ===== src/HazardPacks/Seasons.antt =====
-- src/swelter/hazard_packs.py: the season calendar, its check, and the choice of a pack.
pub mod Covered
use swelter.Prelude.{
  ℕ, zero, suc, false, String, List, [], ◌∷◌, ◌++◌, any_of, keep_if, Bool, true, not, ◌&&◌, ◌||◌,
  if◌then◌else◌, Option, none, some, str_eq,
}
use swelter.Prelude.Int.{ℤ, pos, leb_ℤ, eqb_ℤ}
use swelter.Prelude.Text.{first_chars, drop_chars}
use swelter.Prelude.Dict.{value_at}
use swelter.Float.{Float}
use swelter.HazardPacks.{HazardPack, see, surface_parameters, threshold_keys}
use swelter.HazardPacks.Shipped.{auto_season_pack_id, heat_pack, pack_named}

pub record SeasonWindow : Type 0 where
  pub months : List ℤ
  pub pack : String

-- What a problem says, in place of its sentence.
pub data Problem : Type 0 where
  no_calendar : Problem
  unknown_pack : String → Problem
  not_a_month : ℤ → Problem
  claimed_twice : ℤ → String → String → Problem
  uncovered : List ℤ → Problem

-- `1 <= month <= 12`
abbrev pub is_month : ℤ → Bool
is_month month = leb_ℤ (pos 1) month && leb_ℤ month (pos 12)

-- `seen`: the months that are claimed, with the pack that claims them.
abbrev pub Seen : Type 0
Seen = List (ℤ × String)

abbrev pub is_seen : ℤ → Seen → Bool
is_seen month seen = any_of (λ s. eqb_ℤ s.0 month) seen

-- The problems so far with one more.
abbrev pub and_problem : Problem → List Problem × Seen → List Problem × Seen
and_problem p rest = (p ∷ rest.0, rest.1)

-- What a month adds, from what the months behind it make if it is skipped or claimed.
abbrev pub claim_month :
    String
    → ℤ
    → Bool
    → Option String
    → List Problem × Seen
    → List Problem × Seen
    → List Problem × Seen
claim_month pack month false other skipped claimed = and_problem (not_a_month month) skipped
claim_month pack month true (some other) skipped claimed =
    and_problem (claimed_twice month other pack) skipped
claim_month pack month true none skipped claimed = claimed

-- The loop over the months of a window.
unfoldable pub claim_months : String → List ℤ → Seen → List Problem × Seen
unfolding value_at
claim_months pack [] seen = ([], seen)
claim_months pack (month ∷ months) seen =
    claim_month pack month (is_month month) (value_at eqb_ℤ month seen)
      (claim_months pack months seen) (claim_months pack months (seen ++ (month, pack) ∷ []))

abbrev pub months_from : ℕ → ℕ → List ℤ
months_from first zero = []
months_from first (suc n) = pos first ∷ months_from (suc first) n

-- `range(1, 13)`
abbrev pub months_of_year : List ℤ
months_of_year = months_from 1 12

-- `sorted(set(range(1, 13)) - set(seen))`
abbrev pub missing_months : Seen → List ℤ
missing_months seen = keep_if (λ m. not (is_seen m seen)) months_of_year

abbrev pub missing_problem : List ℤ → List Problem
missing_problem [] = []
missing_problem (m ∷ ms) = uncovered (m ∷ ms) ∷ []

-- `month in window.months`
abbrev pub has_month : ℤ → SeasonWindow → Bool
has_month month window = any_of (λ m. eqb_ℤ m month) window.months

-- `int(bucket[5:7])`, with Python's `int` as a parameter.
unfoldable pub month_of : (String → Option ℤ) → String → Option ℤ
unfolding first_chars drop_chars
month_of int_of bucket = int_of (first_chars 2 (drop_chars 5 bucket))

module _ (float : Float) where
  abbrev pub pack_problem : SeasonWindow → List Problem
  pack_problem window = elim (pack_named float window.pack) [
    | none ↦ unknown_pack window.pack ∷ []
    | some p ↦ []
  ]

  -- The loop over the windows.
  unfoldable pub claim_windows : List SeasonWindow → Seen → List Problem × Seen
  unfolding claim_months pack_named
  claim_windows [] seen = ([], seen)
  claim_windows (window ∷ windows) seen =
      let claimed = claim_months window.pack window.months seen in
      let rest = claim_windows windows claimed.1 in
      (pack_problem window ++ (claimed.0 ++ rest.0), rest.1)

  unfoldable pub season_calendar_problems : List SeasonWindow → List Problem
  unfolding claim_windows
  season_calendar_problems [] = no_calendar ∷ []
  season_calendar_problems (window ∷ windows) =
      let claimed = claim_windows (window ∷ windows) [] in
      claimed.0 ++ missing_problem (missing_months claimed.1)

  -- `none` stands for a SeasonCalendarError.
  unfoldable pub pack_for_month : List SeasonWindow → ℤ → Option (HazardPack float)
  unfolding pack_named
  pack_for_month [] month = none
  pack_for_month (window ∷ windows) month =
      let rest = pack_for_month windows month in
      if has_month month window then pack_named float window.pack else rest

  unfoldable pub resolve_named : String → Option (HazardPack float)
  unfolding pack_named
  resolve_named pack_id = elim (pack_named float pack_id) [
    | none ↦ some (heat_pack float)
    | some pack ↦ some pack
  ]

  unfoldable pub resolve_season : List SeasonWindow → Option ℤ → Option (HazardPack float)
  unfolding pack_for_month
  resolve_season calendar none = some (heat_pack float)
  resolve_season [] (some month) = some (heat_pack float)
  resolve_season (window ∷ windows) (some month) = pack_for_month (window ∷ windows) month

  unfoldable pub resolve_pack :
      Option String → List SeasonWindow → Option ℤ → Option (HazardPack float)
  unfolding resolve_named resolve_season
  resolve_pack none calendar month = some (heat_pack float)
  resolve_pack (some pack_id) calendar month =
      if str_eq pack_id ""
      then some (heat_pack float)
      else if str_eq pack_id auto_season_pack_id
      then resolve_season calendar month
      else resolve_named pack_id

  unfoldable pub see_all : List String → List String → List String
  see_all [] seen = seen
  see_all (p ∷ ps) seen = see_all ps (see p seen)

  -- The parameters or keys of a pack; an unknown one has none.
  abbrev pub of_known : (HazardPack float → List String) → Option (HazardPack float) → List String
  of_known names none = []
  of_known names (some pack) = names pack

  unfoldable pub season_parameters_from : List SeasonWindow → List String → List String
  unfolding see_all pack_named
  season_parameters_from [] seen = seen
  season_parameters_from (window ∷ windows) seen =
      season_parameters_from windows
        (see_all (of_known (surface_parameters float) (pack_named float window.pack)) seen)

  unfoldable pub season_surface_parameters : List SeasonWindow → List String
  unfolding season_parameters_from
  season_surface_parameters calendar = season_parameters_from calendar []

  unfoldable pub season_threshold_keys : List SeasonWindow → List String
  unfolding see_all pack_named
  season_threshold_keys [] = []
  season_threshold_keys (window ∷ windows) =
      see_all (of_known (threshold_keys float) (pack_named float window.pack))
        (season_threshold_keys windows)
