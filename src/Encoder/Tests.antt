-- ===== src/Encoder/Tests.antt =====
-- The column encodings on concrete values.
use my_proxy.Base.{ℕ, ◌/◌, ◌≡◌, [], ◌∷◌, none, some, Bytes, codes, length, replicate, arith}
use my_proxy.Base.Int.{pos, negsuc}
use my_proxy.Encoder.Columns.{Formats, Row, TableMap, ColumnType, encode_row}
use my_proxy.Encoder.Columns.Bitmap.{bit_at}
use my_proxy.Encoder.Columns.Rows.{is_null, values_of, encode_row-bitmap}
use my_proxy.Encoder.Decimal.{
  layout_of, encode_decimal_text, parts_of, groups_of, full_groups, partial_group, padded_int,
  padded_frac,
}
use my_proxy.Encoder.Decimal.RoundTrip.{
  groups_in, numbers, read_decimal, read_decimal-encode_decimal_text,
}
use my_proxy.Encoder.Temporal.{Clock, encode_datetime2}
use my_proxy.Encoder.Temporal.Laws.{read_datetime2, IsCivil, read_datetime2-encode_datetime2}
use my_proxy.Encoder.Value.{Value, Time}

-- A printer of values for tests.
abbrev no_text : Value → Bytes
no_text v = []

-- Scanners for tests, which read every date as 2024-5-17 and every time as -3:4:5.
abbrev test_time : Time
test_time = record {
  year = 2024;
  month = 5;
  day = 17;
  hour = 3;
  minute = 4;
  second = 5;
  nanosecond = 0;
  unix = pos 1715915045;
}

abbrev test_clock : Clock
test_clock = record {
  scan_date = λ s. (pos 2024, pos 5, pos 17);
  scan_time = λ s. (negsuc 2, pos 4, pos 5);
  scan_datetime = λ s. ((pos 2024, pos 5, pos 17), (pos 3, pos 4, pos 5));
  scan_int = λ s. pos 0;
  format_date = λ t. codes "2024-05-17";
  format_micros = λ t. codes "03:04:05.000000";
  format_datetime = λ t. codes "2024-05-17 03:04:05";
  parse = λ s. test_time;
  split_dot = λ s. (s, none);
}

test_time-IsCivil : IsCivil test_time
test_time-IsCivil = record {
  year_fits = omega arith;
  month_fits = omega arith;
  day_fits = omega arith;
  hour_fits = omega arith;
  minute_fits = omega arith;
  second_fits = omega arith;
}

read_datetime2-encode_datetime2_example :
    read_datetime2 (encode_datetime2 test_clock (Value.time test_time) 6)
    ≡ ((2024, 5, 17), (3, 4, 5))
read_datetime2-encode_datetime2_example =
    read_datetime2-encode_datetime2 test_clock test_time 6 test_time-IsCivil

-- DECIMAL(10, 2), as the metadata gives it.
abbrev ten_two : ℕ
ten_two = 2562

read_decimal-encode_decimal_text_example :
    read_decimal (layout_of ten_two) (encode_decimal_text (codes "-12.5") ten_two)
    ≡ ((parts_of (codes "-12.5")).negative, numbers (groups_in ten_two (codes "-12.5")))
unfolding groups_of partial_group padded_int padded_frac layout_of parts_of full_groups
read_decimal-encode_decimal_text_example =
    read_decimal-encode_decimal_text (codes "-12.5") ten_two (λ e. cc)

abbrev test_formats : Formats
test_formats = record {
  clock = test_clock;
  sprint = no_text;
  format_float = λ v n. [];
  to_float32 = λ t. t;
  to_float64 = λ t. t;
}

abbrev two_columns : TableMap
two_columns = record {
  column_types = ColumnType.tiny ∷ ColumnType.varchar ∷ [];
  column_meta = 0 ∷ 20 ∷ [];
}

abbrev half_row : Row
half_row = some (Value.int64 (pos 7)) ∷ none ∷ []

encode_row-bitmap_example :
    (bitmap : Bytes) × (encode_row test_formats two_columns 0 half_row (replicate (9 / 8) 0) []
      ≡ some (bitmap, values_of test_formats two_columns 0 half_row))
    × (length bitmap ≡ 9 / 8)
    × ((j : ℕ) → bit_at j bitmap ≡ is_null 0 half_row j)
encode_row-bitmap_example = encode_row-bitmap test_formats two_columns 2 half_row (omega arith)
