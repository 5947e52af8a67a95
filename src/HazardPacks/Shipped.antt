-- ===== src/HazardPacks/Shipped.antt =====
-- src/swelter/hazard_packs.py: the packs that are shipped.
use swelter.Prelude.{String, List, [], ◌∷◌, Option, none, some, str_eq}
use swelter.Prelude.Int.{pos, negsuc}
use swelter.Prelude.Dict.{value_at}
use swelter.Float.{Float}
use swelter.Aggregate.{exposure_parameter, aqi_window_hourly, aqi_window_nowcast}
use swelter.HazardPacks.{Citation, HazardThreshold, EventRule, HazardPack}

abbrev pub auto_season_pack_id : String
auto_season_pack_id = "auto-season"

abbrev aqi_basics : Citation
aqi_basics = record {
  source = "US EPA / AirNow";
  detail = "Air Quality Index (AQI) basics";
  url = "https://www.airnow.gov/aqi/aqi-basics/";
  last_verified = "2026-07-16";
}

module _ (float : Float) where
  open float use {F, of_nat, decimal}

  abbrev pub epa_pm25_floor : HazardThreshold float
  epa_pm25_floor = record {
    key = "pm25_aqi";
    parameter = "pm25_ugm3";
    floor = of_nat 101;
    citation = record {
      source = "US EPA";
      detail = "AQI 101 = \"Unhealthy for Sensitive Groups\" boundary (2024 PM2.5 breakpoints)";
      url = "https://www.airnow.gov/aqi/aqi-basics/";
      last_verified = "2026-07-16";
    };
  }

  abbrev pub heat_pack : HazardPack float
  heat_pack = record {
    pack_id = "heat";
    version = "1";
    label = "Heat & air quality";
    thresholds =
        epa_pm25_floor
        ∷ (record {
          key = "heat_index_c";
          parameter = "heat_index_c";
          floor = decimal (pos 394) 1;
          citation = record {
            source = "US NWS";
            detail = "Heat-index \"Danger\" tier floor (103 °F / 39.4 °C)";
            url = "https://www.weather.gov/safety/heat-index";
            last_verified = "2026-07-16";
          };
        })
        ∷ (record {
          key = "exposure";
          parameter = exposure_parameter;
          floor = of_nat 3;
          citation = record {
            source = "swelter";
            detail = "Combined heat-and-air exposure level 3 = \"High\" (ADR 0009)";
            url =
                "https://github.com/ChelseaKR/swelter/blob/main/docs/adr/0009-compound-heat-air-exposure-surface.md";
            last_verified = "2026-07-16";
          };
        })
        ∷ [];
    aqi_window = aqi_window_hourly;
    event_rule = none;
    guidance =
        (record {
          source = "US NWS";
          detail = "Heat safety information";
          url = "https://www.weather.gov/safety/heat";
          last_verified = "2026-07-16";
        })
        ∷ aqi_basics
        ∷ [];
  }

  abbrev pub cold_pack : HazardPack float
  cold_pack = record {
    pack_id = "cold";
    version = "1";
    label = "Cold & air quality";
    thresholds =
        epa_pm25_floor
        ∷ (record {
          key = "wind_chill_c";
          parameter = "wind_chill_c";
          floor = decimal (negsuc 282) 1;
          citation = record {
            source = "US NWS";
            detail =
                "Wind Chill Chart frostbite boundary — exposed skin can freeze in 30 minutes at a wind chill of -19 °F / -28.3 °C";
            url = "https://www.weather.gov/safety/cold-wind-chill-chart";
            last_verified = "2026-07-18";
          };
        })
        ∷ [];
    aqi_window = aqi_window_hourly;
    event_rule = none;
    guidance =
        (record {
          source = "US NWS";
          detail = "Cold and wind-chill safety information";
          url = "https://www.weather.gov/safety/cold";
          last_verified = "2026-07-18";
        })
        ∷ aqi_basics
        ∷ [];
  }

  abbrev pub smoke_rule : EventRule float
  smoke_rule = record {
    parameter = "pm25_ugm3";
    aqi_window = aqi_window_hourly;
    floor = decimal (pos 355) 1;
    rise = of_nat 20;
    lookback_hours = 3;
    minimum_cells = 3;
    citation = record {
      source = "US EPA";
      detail =
          "35.5 ug/m3 is the 2024 PM2.5 breakpoint where the AQI leaves the Moderate band. The 20 ug/m3 three-hour rise and the three-cell minimum are swelter's own, chosen so one spiking node cannot declare an event; no published standard sets them, because they depend on a network's own sensor density";
      url =
          "https://www.epa.gov/system/files/documents/2024-02/pm-naaqs-air-quality-index-fact-sheet.pdf";
      last_verified = "2026-09-07";
    };
  }

  abbrev pub smoke_pack : HazardPack float
  smoke_pack = record {
    pack_id = "smoke";
    version = "1";
    label = "Wildfire smoke";
    thresholds =
        (record {
          key = "pm25_aqi";
          parameter = "pm25_ugm3";
          floor = of_nat 101;
          citation = record {
            source = "US EPA";
            detail =
                "AQI 101 = \"Unhealthy for Sensitive Groups\" boundary (2024 PM2.5 breakpoints), read on the NowCast window AirNow publishes as the current hour's air quality";
            url =
                "https://document.airnow.gov/technical-assistance-document-for-the-reporting-of-daily-air-quailty.pdf";
            last_verified = "2026-09-07";
          };
        })
        ∷ [];
    aqi_window = aqi_window_nowcast;
    event_rule = some smoke_rule;
    guidance =
        (record {
          source = "US EPA / AirNow";
          detail = "Wildfire smoke and your health";
          url = "https://www.airnow.gov/air-quality-and-health/wildfires/";
          last_verified = "2026-09-07";
        })
        ∷ (record {
          source = "US EPA / AirNow";
          detail = "Air Quality Index (AQI) basics";
          url = "https://www.airnow.gov/aqi/aqi-basics/";
          last_verified = "2026-09-07";
        })
        ∷ [];
  }

  abbrev pub packs : List (String × HazardPack float)
  packs = ("heat", heat_pack) ∷ ("cold", cold_pack) ∷ ("smoke", smoke_pack) ∷ []

  -- `PACKS.get(pack_id)`
  unfoldable pub pack_named : String → Option (HazardPack float)
  unfolding value_at
  pack_named pack_id = value_at str_eq pack_id packs
