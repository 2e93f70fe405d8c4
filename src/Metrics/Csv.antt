-- ===== src/Metrics/Csv.antt =====
-- `WriteCSV` of pkg/metrics/metrics.go: the records that it hands to the writer of encoding/csv.
pub mod RoundTrip
use Prim.Native.String.{String}
use proto_test.Base.{ℕ, suc, List, [], ◌∷◌, Option, none, some, ℤ, Error, format_int, format_uint}
use proto_test.Metrics.{Snapshot}

-- A field of a record: a text, or the digits that strconv made.
pub data Cell : Type 0 where
  text : String → Cell
  number : List ℕ → Cell

abbrev pub head : List Cell
head =
    text "timestamp"
    ∷ text "mode"
    ∷ text "transport"
    ∷ text "target_pps"
    ∷ text "achieved_pps"
    ∷ text "tx"
    ∷ text "rx"
    ∷ text "drop"
    ∷ text "drop_timeout"
    ∷ text "drop_send_err"
    ∷ text "drop_decode"
    ∷ text "drop_mismatch"
    ∷ text "drop_other"
    ∷ text "p50_us"
    ∷ text "p95_us"
    ∷ text "p99_us"
    ∷ text "channels"
    ∷ []

-- What `WriteCSV` returns, and the records that the writer took.
pub record Written : Type 0 where
  pub error : Option Error
  pub records : List (List Cell)

abbrev pub behind : List Cell → Written → Written
behind rec w = record w { records = rec ∷ w.records }

-- `format_time` is `Format(time.RFC3339Nano)`.
module _ (format_time : ℤ → String) where
  unfoldable pub csv_record : Snapshot → List Cell
  csv_record s =
      text (format_time s.timestamp)
      ∷ text s.mode
      ∷ text s.transport
      ∷ number (format_int s.target_pps)
      ∷ number (format_int s.achieved_pps)
      ∷ number (format_uint s.tx)
      ∷ number (format_uint s.rx)
      ∷ number (format_uint s.drop)
      ∷ number (format_uint s.drop_timeout)
      ∷ number (format_uint s.drop_send_err)
      ∷ number (format_uint s.drop_decode)
      ∷ number (format_uint s.drop_mismatch)
      ∷ number (format_uint s.drop_other)
      ∷ number (format_int s.p50_us)
      ∷ number (format_int s.p95_us)
      ∷ number (format_int s.p99_us)
      ∷ number (format_int s.channels)
      ∷ []

  -- `os.Create`, and `Write` of the csv writer on the record of this number.
  module _ (create : Option Error) (write : ℕ → List Cell → Option Error) where
    abbrev pub after_write : List Cell → Option Error → Written → Written
    after_write rec (some e) more = record { error = some e; records = [] }
    after_write rec none more = behind rec more

    unfoldable pub write_rows : ℕ → List Snapshot → Written
    unfolding csv_record
    write_rows i [] = record { error = none; records = [] }
    write_rows i (s ∷ rows) =
        after_write (csv_record s) (write i (csv_record s)) (write_rows (suc i) rows)

    unfoldable pub write_csv : List Snapshot → Written
    unfolding write_rows
    write_csv rows = elim create [
      | some e ↦ record { error = some e; records = [] }
      | none ↦ after_write head (write 0 head) (write_rows 1 rows)
    ]
