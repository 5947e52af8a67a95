-- ===== src/Lib.antt =====
-- A verification development for swelter, the community-owned heat and air-quality sensing network.
--
-- The program: a sensor node (firmware/src) reads a temperature and humidity sensor over I2C and a
-- particulate sensor over UART, and keeps every payload in a buffer on flash until a transport
-- confirms it. The server (src/swelter) validates and stores payloads, labels them by quality
-- control, applies calibration and publishes surfaces.
--
-- Files, and the source that each is about (paths from the repository's root):
--   Prelude, Prelude/*   tests on numbers, lists over native numbers, a stable sort, bit operations
--   Float, Float/*       Python's float as a type with operations, round and the math module;
--                        the whole numbers as such a type
--   Models, Models/*     src/swelter/models.py: Observation, the verdicts, PARAMETERS
--   Models/Heat          src/swelter/models.py: heat_index_c, wbgt_c, wind_chill_c,
--                        is_within_range, derive_heat_metrics
--   Calibrate, Calibrate/*       src/swelter/calibrate.py: Correction, CorrectionRegistry,
--                        predictors_for, _method_for, humidity_index, apply
--   Calibrate/Solve, Calibrate/Fit, Calibrate/Fit/*   src/swelter/calibrate.py: _ols, _solve,
--                        fit_id, fit_one, fit
--   Models/Air, Models/Air/*     src/swelter/models.py: pm25_aqi, nowcast_concentration, nowcast_aqi
--   Aggregate            src/swelter/aggregate.py: CellReading, _bucket_observations
--   Aggregate/Cells      src/swelter/aggregate.py: combine_member_sigmas, _build_cells
--   Aggregate/Placed, Fields, RolledUp, Complete   what the cells are of the observations
--   Aggregate/Surface, Newest    src/swelter/aggregate.py: newest_bucket, latest_by_cell,
--                        readings_for
--   Aggregate/Derived, Aggregate/Derived/*   src/swelter/aggregate.py: _exposure_cells,
--                        _nowcast_cells
--   Aggregate/History, Aggregate/History/*   src/swelter/aggregate.py: _history_from_window,
--                        _history_for_month_series, attach_history_context
--   Aggregate/Whole      src/swelter/aggregate.py: aggregate
--   HazardPacks, HazardPacks/*   src/swelter/hazard_packs.py: the packs, the season calendar
--   Alerts               src/swelter/alerts.py: crossing, resolve_thresholds, pack_for_surface
--   Alerts/Event, Alerts/Widespread, Alerts/Widespread/*   src/swelter/alerts.py: detect_event
--   Alerts/Feed          src/swelter/alerts.py: build_feed, AlertFeed.for_area
--   Alerts/Current, Alerts/Current/*, Alerts/Built   what a feed publishes of a surface
--   Qc/Flags, Qc/Flags/* src/swelter/qc.py: range_flag, _flag_spikes, _flag_flatline, _series_flags
--   Qc/Apply, Qc/Apply/* src/swelter/qc.py: apply
--   Qc/Gaps, Qc/Gaps/*   src/swelter/qc.py: Gap, detect_gaps
--   Qc/Twins, Qc/Twins/* src/swelter/qc.py: TwinAgreement, _window_series,
--                        _pair_by_nearest_timestamp, _resolve_twin_threshold, twin_agreement;
--                        src/swelter/config.py: TwinWindow
--   Qc/Coverage, Qc/Coverage/*   src/swelter/qc.py: coverage_equity
--   Qc/Health, Qc/Health/*       src/swelter/qc.py: NodeHealth, node_health, the summary of
--                        health_report
--   Qc/Ages, Qc/Ages/*   src/swelter/qc.py: correction_ages, calibration_block
--   Qc/Examples          quality control at small inputs
--   Store, Store/*       src/swelter/store.py: SqliteStore (write, read, all, iter_rows, node_ids,
--                        count, latest_raw, drop_calibrated), _row_to_obs
--   Store/Migration, Store/Migration/*   src/swelter/store.py: the migration to keys with a source
--   Integrity, Integrity/*   src/swelter/integrity.py: verify_rows, daily_digests, write_digests,
--                        read_head
--   Ingest, Ingest/*     src/swelter/ingest.py: explode, ingest, read_jsonl
--   Models/Exposure, Models/Exposure/*   src/swelter/models.py: heat_index_category,
--                        wind_chill_category, exposure_level, exposure_bounding_component
--   Qr, Qr/Capacity      src/swelter/qr.py: _choose_version, _BitBuffer, _encode_codewords
--   Qr/Field, Qr/Codes, Qr/Codes/*   _gf_mul, _rs_generator_poly, _rs_encode; _bch_remainder,
--                        _format_bits, _version_bits, all in src/swelter/qr.py
--   Qr/Interleave, Qr/Matrix, Qr/Data   _interleave; the function patterns and the writing of the
--                        format and the version; _place_data and a reader of its zigzag
--   Qr/Mask, Qr/Penalty, Qr/Build   _apply_mask; _line_penalty, _penalty; _build_matrix
--   Qr/Svg               qr_svg
--   Firmware/Sht31       firmware/src/drivers/sht31.py: crc8, _word, convert_raw,
--                        parse_measurement, Sht31.read
--   Firmware/Pms5003     firmware/src/drivers/pms5003.py: _u16, parse_frame, Pms5003.read and
--                        _read_frame
--   Firmware/Buffer      firmware/src/store_and_forward.py: StoreAndForward
--   Firmware/Examples    runs of the firmware at small inputs
--
-- How the parts interact: Ingest explodes payloads to the observations of Models, labels them by
-- Qc/Apply and stores them by Store.write; Integrity reads the rows of Store, whose migration
-- rewrites the digests; Qc/Gaps, Qc/Twins, Qc/Coverage and Qc/Health read what the store returns.
-- Calibrate corrects labelled observations, and Aggregate rolls both up to the rows of a surface;
-- Alerts reads the latest of these under a pack of HazardPacks.
--
-- How the program is modelled:
--   * A float is an element of a type with operations of which no law is assumed (Float). The laws
--     that a theorem needs are its hypotheses. Rounding, pstdev, math.floor, which has no value at
--     an infinite float or at one that is not a number, and sum of floats, whose order of additions
--     is the runtime's, are parameters, and so is the square of a float, which has no value where
--     it overflows. The slope of the heat index is a raise where its denominator is 0.0.
--   * SHA-256, JSON text, the parsing and formatting of timestamps, the buses, the UART and the
--     transport of a node are parameters. Reading a timestamp gives its canonical text, is refused,
--     or raises what explode does not catch. The buffer's file has a last line that may be torn,
--     and what text that is written behind it makes of it is a parameter.
--   * SQLite is a list of rows with a primary key, in the order of insertion, in which a float that
--     is not a number is NULL. Whether the commit of a migration succeeds, and what a failing
--     restore leaves of the digest file, are parameters.
--   * Python's int of the text of a month, the seconds of a bucket and the bucket of an instant are
--     parameters of the alerts.
--   * A raise is a `none` or a constructor of a result; the text of a message is left out.
--   * A loop is a recursion on its list or on a number of rounds: the pairing of twins has as many
--     rounds as the source gives it; the filling of a byte has seven, since at most seven bits are
--     missing; the zigzag of a symbol has as many rounds as the symbol has columns, each of which
--     moves it to the left, and the division of a code as many as its value has bits, since each
--     shortens it; the driver of the particulate sensor has the attempts of the source.
--
-- Not modelled: an unparsable timestamp of a stored observation, which raises in the source; an
-- interval of 0, by which node_health divides; the assembly of the JSON reports; files and
-- connections, but for the steps of the buffer's rewrite; the records, GeoJSON, JSON and Atom forms
-- of surfaces and feeds, with the sentences in them; the other modules of
-- src/swelter.
pub mod Prelude
pub mod Float
pub mod Models
pub mod Qc
pub mod Calibrate
pub mod Aggregate
pub mod HazardPacks
pub mod Alerts
pub mod Store
pub mod Integrity
pub mod Ingest
pub mod Qr
pub mod Firmware
