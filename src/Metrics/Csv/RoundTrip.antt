-- ===== src/Metrics/Csv/RoundTrip.antt =====
-- The rows can be read back from the file.
use Prim.Native.String.{String}
use package.text.Mathlib.Text.{◌==◌ as str_eq}
use proto_test.Base.{
  ℕ, suc, ◌≡◌, refl, List, [], ◌∷◌, Option, none, some, if◌then◌else◌, ℤ, Error, All, read_int,
  read_uint, read_int-format_int, read_uint-format_uint,
}
use proto_test.Metrics.{Snapshot}
use proto_test.Metrics.Csv.{Cell, text, number, head, csv_record, write_rows, write_csv}

-- No error comes where the writer takes every record.
module _ (format_time : ℤ → String) (write : ℕ → List Cell → Option Error)
    (takes : (i : ℕ) (rec : List Cell) → write i rec ≡ none) where
  write_rows_error :
      (i : ℕ) (rows : List Snapshot) → (write_rows format_time none write i rows).error ≡ none
  unfolding write_rows
  write_rows_error i [] = refl
  write_rows_error i (s ∷ rows) =
      rw (takes i (csv_record format_time s)) (write_rows_error (suc i) rows)

  pub write_csv_error :
      (rows : List Snapshot) → (write_csv format_time none write rows).error ≡ none
  unfolding write_csv
  write_csv_error rows = rw (takes 0 head) (write_rows_error 1 rows)

-- The field of a record under a name of the header.
abbrev pub column : List Cell → List Cell → String → Option Cell
column (text h ∷ hs) (c ∷ cs) name =
    let rest = column hs cs name in if str_eq h name then some c else rest
column _ _ _ = none

abbrev pub text_of : Option Cell → Option String
text_of (some (text s)) = some s
text_of _ = none

abbrev pub int_of : Option Cell → Option ℤ
int_of (some (number ds)) = some (read_int ds)
int_of _ = none

abbrev pub uint_of : Option Cell → Option ℕ
uint_of (some (number ds)) = some (read_uint ds)
uint_of _ = none

abbrev pub row_of :
    Option ℤ
    → Option String
    → Option String
    → Option ℤ
    → Option ℤ
    → Option ℕ
    → Option ℕ
    → Option ℕ
    → Option ℕ
    → Option ℕ
    → Option ℕ
    → Option ℕ
    → Option ℕ
    → Option ℤ
    → Option ℤ
    → Option ℤ
    → Option ℤ
    → Option Snapshot
row_of (some t) (some m) (some tr) (some target) (some achieved) (some sent) (some received)
      (some lost) (some timeout) (some send_err) (some decode) (some mismatch) (some other)
      (some p50) (some p95) (some p99) (some chs) =
    some (record {
      timestamp = t;
      mode = m;
      transport = tr;
      target_pps = target;
      achieved_pps = achieved;
      tx = sent;
      rx = received;
      drop = lost;
      drop_timeout = timeout;
      drop_send_err = send_err;
      drop_decode = decode;
      drop_mismatch = mismatch;
      drop_other = other;
      p50_us = p50;
      p95_us = p95;
      p99_us = p99;
      channels = chs;
    })
row_of _ _ _ _ _ _ _ _ _ _ _ _ _ _ _ _ _ = none

module _ (read_time : String → Option ℤ) where
  abbrev pub time_of : Option Cell → Option ℤ
  time_of (some (text s)) = read_time s
  time_of _ = none

  -- The row of a record, each column found by its name in the header.
  abbrev pub read_record : List Cell → List Cell → Option Snapshot
  read_record hs rec =
      let at = column hs rec in
      row_of (time_of (at "timestamp")) (text_of (at "mode")) (text_of (at "transport"))
        (int_of (at "target_pps")) (int_of (at "achieved_pps")) (uint_of (at "tx"))
        (uint_of (at "rx")) (uint_of (at "drop")) (uint_of (at "drop_timeout"))
        (uint_of (at "drop_send_err")) (uint_of (at "drop_decode")) (uint_of (at "drop_mismatch"))
        (uint_of (at "drop_other")) (int_of (at "p50_us")) (int_of (at "p95_us"))
        (int_of (at "p99_us")) (int_of (at "channels"))

  abbrev pub prepend : Option Snapshot → Option (List Snapshot) → Option (List Snapshot)
  prepend (some s) (some rows) = some (s ∷ rows)
  prepend _ _ = none

  -- The rows of the records under a header.
  abbrev pub read_records : List Cell → List (List Cell) → Option (List Snapshot)
  read_records hs [] = some []
  read_records hs (rec ∷ recs) = prepend (read_record hs rec) (read_records hs recs)

  abbrev pub read_table : List (List Cell) → Option (List Snapshot)
  read_table [] = none
  read_table (hs ∷ recs) = read_records hs recs

  module _ (format_time : ℤ → String) where
    -- The time of a row can be read back.
    abbrev pub IsTimed : Snapshot → Type 0
    IsTimed s = read_time (format_time s.timestamp) ≡ some s.timestamp

    read_record-csv_record :
        (s : Snapshot) → IsTimed s → read_record head (csv_record format_time s) ≡ some s
    unfolding csv_record
    read_record-csv_record s h =
        rw
          (
            h,
            read_int-format_int s.target_pps,
            read_int-format_int s.achieved_pps,
            read_uint-format_uint s.tx,
            read_uint-format_uint s.rx,
            read_uint-format_uint s.drop,
            read_uint-format_uint s.drop_timeout,
            read_uint-format_uint s.drop_send_err,
            read_uint-format_uint s.drop_decode,
            read_uint-format_uint s.drop_mismatch,
            read_uint-format_uint s.drop_other,
            read_int-format_int s.p50_us,
            read_int-format_int s.p95_us,
            read_int-format_int s.p99_us,
            read_int-format_int s.channels,
          )
          refl

    -- The writer takes every record.
    module _ (write : ℕ → List Cell → Option Error)
        (takes : (i : ℕ) (rec : List Cell) → write i rec ≡ none) where
      read_records-write_rows :
          (i : ℕ) (rows : List Snapshot)
          → All IsTimed rows
          → let w = write_rows format_time none write i rows in
            (w.error ≡ none) × (read_records head w.records ≡ some rows)
      unfolding write_rows
      read_records-write_rows i [] h = (refl, refl)
      read_records-write_rows i (s ∷ rows) h =
          let (e, r) = read_records-write_rows (suc i) rows h.1 in
          rw (takes i (csv_record format_time s)) (e, rw (read_record-csv_record s h.0, r) refl)

      -- Where the file can be created, the writer takes every record, and the times of the rows can
      -- be read back, `WriteCSV` returns no error, and what it writes is read back as exactly the rows,
      -- in order: its first record is a header, and each field of a row is under its own name.
      pub read_table-write_csv :
          (rows : List Snapshot)
          → All IsTimed rows
          → let w = write_csv format_time none write rows in
            (w.error ≡ none) × (read_table w.records ≡ some rows)
      unfolding write_csv
      read_table-write_csv rows h = rw (takes 0 head) (read_records-write_rows 1 rows h)
