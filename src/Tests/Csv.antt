-- ===== src/Tests/Csv.antt =====
-- A table of two rows, written and read back.
use Prim.Native.String.{String}
use proto_test.Base.{ℕ, ◌≡◌, refl, List, [], ◌∷◌, Option, none, some, ℤ, pos, negsuc, Error}
use proto_test.Metrics.{Snapshot}
use proto_test.Metrics.Csv.{Cell, write_csv}
use proto_test.Metrics.Csv.RoundTrip.{read_table, read_table-write_csv}

-- Every time is midnight, which is 7.
abbrev format_time : ℤ → String
format_time t = "2024-01-01T00:00:00Z"

abbrev read_time : String → Option ℤ
read_time s = some (pos 7)

abbrev row : Snapshot
row = record {
  timestamp = pos 7;
  mode = "latency";
  transport = "quic";
  target_pps = pos 1000;
  achieved_pps = pos 998;
  tx = 998;
  rx = 990;
  drop = 8;
  drop_timeout = 6;
  drop_send_err = 0;
  drop_decode = 0;
  drop_mismatch = 2;
  drop_other = 0;
  p50_us = pos 120;
  p95_us = pos 340;
  p99_us = negsuc 0;
  channels = pos 4;
}

abbrev rows : List Snapshot
rows = row ∷ (record row { rx = 0; target_pps = negsuc 41 } ∷ [])

abbrev take_all : ℕ → List Cell → Option Error
take_all i rec = none

read_table-write_csv_example :
    let w = write_csv format_time none take_all rows in
    (w.error ≡ none) × (read_table read_time w.records ≡ some rows)
read_table-write_csv_example =
    read_table-write_csv read_time format_time take_all (λ i rec. refl) rows (refl, (refl, tt))
