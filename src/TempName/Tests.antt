-- ===== src/TempName/Tests.antt =====
-- Names of temporary files, and the theorems at concrete names.
use networks_dartsync.Base.{◌≡◌, ◌≢◌, refl, some, arith}
use networks_dartsync.Base.Bytes.{Bytes, codes}
use networks_dartsync.Base.Int.{pos}
use networks_dartsync.TempName.{
  PeerInfo, strip_prefix, strstr, copy_to_buffer, temp_name_text, temp_file_name, parse_number,
  parse_tmpt_file_name,
}
use networks_dartsync.TempName.Decimal.{
  decimal, signed_decimal, ascii_to_signed, signed_number, skip_space,
}
use networks_dartsync.TempName.RoundTrip.{
  parse_tmpt_file_name-temp_file_name, parse_tmpt_file_name-wrong,
}

abbrev info : PeerInfo
info = record {
  file_name = codes "dir/my_file";
  file_time_stamp = 1433000000;
  piece_start_idx = pos 2048;
  piece_len = pos 1000;
}

abbrev info_text : Bytes
info_text = codes "dir/my_file__2048__1000__1433000000~"

info_run : temp_file_name info ≡ some info_text
unfolding temp_file_name temp_name_text copy_to_buffer signed_decimal decimal
info_run = refl

parse_tmpt_file_name-temp_file_name_example : parse_tmpt_file_name info_text ≡ some info
parse_tmpt_file_name-temp_file_name_example =
    parse_tmpt_file_name-temp_file_name info
      (record { start = refl; len = refl; stamp = omega arith }) refl info_run

-- A file's name with two underscores, and what is read instead of it.
abbrev dunder : PeerInfo
dunder = record info { file_name = codes "a__5b" }

abbrev dunder_read : PeerInfo
dunder_read = record {
  file_name = codes "a";
  file_time_stamp = 1000;
  piece_start_idx = pos 5;
  piece_len = pos 2048;
}

abbrev dunder_text : Bytes
dunder_text = codes "a__5b__2048__1000__1433000000~"

dunder_run : temp_file_name dunder ≡ some dunder_text
unfolding temp_file_name temp_name_text copy_to_buffer signed_decimal decimal
dunder_run = refl

dunder_read_run : parse_tmpt_file_name dunder_text ≡ some dunder_read
unfolding parse_tmpt_file_name parse_number strstr strip_prefix copy_to_buffer ascii_to_signed
    signed_number skip_space
dunder_read_run = refl

parse_tmpt_file_name-wrong_example : dunder_read.file_name ≢ dunder.file_name
parse_tmpt_file_name-wrong_example =
    parse_tmpt_file_name-wrong dunder dunder_read refl dunder_run dunder_read_run
