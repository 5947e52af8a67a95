-- ===== src/Aggregate/Cells.antt =====
-- src/swelter/aggregate.py: `combine_member_sigmas` and `_build_cells`. `none` stands for a raise,
-- of `pm25_aqi` at a mean without an index.
use swelter.Prelude.{
  ℕ, zero, suc, String, List, [], ◌∷◌, ◌++◌, map, length, Bool, true, false, not, ◌&&◌, ◌||◌,
  if◌then◌else◌, Option, none, some, str_eq, any_of,
}
use swelter.Prelude.Int.{ℤ}
use swelter.Prelude.Text.{text_lt}
use swelter.Prelude.Sort.{sort_by}
use swelter.Prelude.Group.{all_at}
use swelter.Prelude.Dict.{value_at}
use swelter.Float.{Float}
use swelter.Float.Library.{Library}
use swelter.Models.{Verdict}
use swelter.Models.Air.{pm25_aqi}
use swelter.Aggregate.{
  Note, unknown_sigmas, CellReading, CellKey, same_key, Lists, Buckets, aqi_window_hourly,
  sorted_flags, sorted_texts, joined, text_or_none,
}

-- The order of tuples of three texts.
abbrev pub key_le : CellKey → CellKey → Bool
key_le a b =
    text_lt a.0 b.0
    || (str_eq a.0 b.0 && (text_lt a.1 b.1 || (str_eq a.1 b.1 && not (text_lt b.2 a.2))))

-- The keys of a set, each once.
abbrev pub once_key : List CellKey → List CellKey
once_key [] = []
once_key (k ∷ ks) = if any_of (same_key k) ks then once_key ks else k ∷ once_key ks

module _ (float : Float) (library : Library float) where
  open float use {F, of_nat, add, mul, div}
  open library use {sqrt, sum}

  pub record CellSigmas : Type 0 where
    pub uncertainty : Option F
    pub mean_member_sigma : Option F
    pub note : Option (Note float)

  abbrev pub no_sigmas : Option (Note float) → CellSigmas
  no_sigmas note = record { uncertainty = none; mean_member_sigma = none; note = note }

  -- `[s for s in sigmas if s is not None]`
  abbrev pub known_of : List (Option F) → List F
  known_of [] = []
  known_of (none ∷ sigmas) = known_of sigmas
  known_of (some s ∷ sigmas) = s ∷ known_of sigmas

  -- `len(sigmas) - len(known)`
  abbrev pub count_unknown : List (Option F) → ℕ
  count_unknown [] = 0
  count_unknown (none ∷ sigmas) = suc (count_unknown sigmas)
  count_unknown (some s ∷ sigmas) = count_unknown sigmas

  unfoldable pub combine_known : ℕ → ℕ → List F → CellSigmas
  combine_known (suc unknown) total known = no_sigmas (some (unknown_sigmas (suc unknown) total))
  combine_known zero total known =
      let n = of_nat (length known) in
      record {
        uncertainty = some (div (sqrt (sum (map (λ s. mul s s) known))) n);
        mean_member_sigma = some (div (sum known) n);
        note = none;
      }

  unfoldable pub combine_member_sigmas : List (Option F) → CellSigmas
  unfolding combine_known
  combine_member_sigmas [] = no_sigmas none
  combine_member_sigmas (s ∷ sigmas) =
      combine_known (count_unknown (s ∷ sigmas)) (length (s ∷ sigmas)) (known_of (s ∷ sigmas))

  -- What the lane that a cell is built from gives it.
  pub record Lane : Type 0 where
    pub values : List F
    pub provisional : Bool
    pub sigmas : CellSigmas
    pub method : Option String
    pub reference : Option String
    pub qc_flags : List Verdict

  -- The three branches: trusted, then clean and provisional, then suspicious readings.
  unfoldable pub choose_lane : CellKey → Buckets float → List F → List F → Lane
  unfolding combine_member_sigmas value_at joined sorted_texts sorted_flags
  choose_lane key b (t ∷ trusted) clean = record {
    values = t ∷ trusted;
    provisional = false;
    sigmas = combine_member_sigmas (all_at same_key key b.trusted_unc);
    method = text_or_none (joined (sorted_texts (all_at same_key key b.trusted_methods)));
    reference = text_or_none (joined (sorted_texts (all_at same_key key b.trusted_refs)));
    qc_flags = [];
  }
  choose_lane key b [] (c ∷ clean) = record {
    values = c ∷ clean;
    provisional = true;
    sigmas = no_sigmas none;
    method = none;
    reference = none;
    qc_flags = [];
  }
  choose_lane key b [] [] = record {
    values = all_at same_key key b.suspicious_vals;
    provisional = true;
    sigmas = no_sigmas none;
    method = none;
    reference = none;
    qc_flags = sorted_flags (all_at same_key key b.suspicious_flags);
  }

  unfoldable pub cell_of : CellKey → F × F → String → List String → Lane → CellReading float
  cell_of key loc label nodes lane = record {
    cell_id = key.0;
    label = label;
    lat = loc.0;
    lon = loc.1;
    parameter = key.2;
    bucket = key.1;
    mean = div (sum lane.values) (of_nat (length lane.values));
    n = length lane.values;
    provisional = lane.provisional;
    uncertainty = lane.sigmas.uncertainty;
    mean_member_sigma = lane.sigmas.mean_member_sigma;
    aqi = none;
    category = none;
    aqi_window = none;
    heat_category = none;
    air_category = none;
    compound = false;
    uncertainty_note = lane.sigmas.note;
    method = lane.method;
    reference = lane.reference;
    qc_flags = lane.qc_flags;
    nodes = nodes;
    history = none;
  }

  unfoldable pub with_aqi : CellReading float → Option (ℤ × String) → Option (CellReading float)
  with_aqi cell none = none
  with_aqi cell (some (aqi, category)) = some (record cell {
    aqi = some aqi;
    category = some category;
    aqi_window = some aqi_window_hourly;
  })

  unfoldable pub finish_cell : CellReading float → Option (CellReading float)
  unfolding with_aqi pm25_aqi
  finish_cell cell =
      if str_eq cell.parameter "pm25_ugm3"
      then with_aqi cell (pm25_aqi float library cell.mean)
      else some cell

  -- `b.coords[cell_id]`, which has every cell that has a key
  abbrev pub loc_at : Buckets float → CellKey → F × F
  loc_at b key = elim (value_at str_eq key.0 b.coords) [ none ↦ (of_nat 0, of_nat 0) | some l ↦ l ]

  abbrev pub label_at : List (String × String) → CellKey → String
  label_at labels key = elim (value_at str_eq key.0 labels) [ none ↦ "" | some l ↦ l ]

  unfoldable pub nodes_at : Buckets float → CellKey → List String
  unfolding sorted_texts value_at
  nodes_at b key = sorted_texts (all_at str_eq key.0 b.cell_nodes)

  unfoldable pub lane_at : Buckets float → CellKey → Lane
  unfolding choose_lane
  lane_at b key =
      choose_lane key b (all_at same_key key b.trusted_vals)
        (all_at same_key key b.provisional_vals)

  unfoldable pub build_cell :
      Buckets float → List (String × String) → CellKey → Option (CellReading float)
  unfolding lane_at cell_of finish_cell nodes_at
  build_cell b labels key =
      finish_cell
        (cell_of key (loc_at b key) (label_at labels key) (nodes_at b key) (lane_at b key))

  abbrev pub keys_of : {V : Type 0} → Lists float V → List CellKey
  keys_of lists = map (λ item. item.0) lists

  -- `sorted(set(b.trusted_vals) | set(b.provisional_vals) | set(b.suspicious_vals))`
  unfoldable pub sorted_keys : Buckets float → List CellKey
  unfolding sort_by
  sorted_keys b =
      sort_by key_le (
        once_key
          (keys_of b.trusted_vals ++ keys_of b.provisional_vals ++ keys_of b.suspicious_vals))

  unfoldable pub collect_cell :
      Option (CellReading float)
      → Option (List (CellReading float))
      → Option (List (CellReading float))
  collect_cell none rest = none
  collect_cell (some cell) none = none
  collect_cell (some cell) (some cells) = some (cell ∷ cells)

  unfoldable pub build_each :
      Buckets float → List (String × String) → List CellKey → Option (List (CellReading float))
  unfolding build_cell collect_cell
  build_each b labels [] = some []
  build_each b labels (key ∷ keys) =
      collect_cell (build_cell b labels key) (build_each b labels keys)

  unfoldable pub build_cells :
      Buckets float → List (String × String) → Option (List (CellReading float))
  unfolding build_each sorted_keys
  build_cells b labels = build_each b labels (sorted_keys b)
