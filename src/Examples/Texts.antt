-- ===== src/Examples/Texts.antt =====
-- The theorems on texts and records at concrete inputs.
use dockup.Base.{
  ◌≡◌, ◌*◌, ◌^◌, ◌≤◌, max_uint64, refl, true, [], ◌∷◌, ◌++◌, map, codes, arith, join_with, split,
  trim_space, cut, has_prefix, has_suffix, equal_fold, parse_uint, to_lower, str_eq,
}
use dockup.Sysinfo.Csv.{split_csv, quote, split_csv-join}
use dockup.Pstable.Row.{Row}
use dockup.Doctor.WslMemory.{parse_wsl_memory}
use dockup.Doctor.WslMemory.Exact.{Spelled, parse_wsl_memory-Spelled}
use dockup.Wsl.Utf16.{
  decode_wsl_output, encode_utf16, utf8_text, decode-encode_utf16, decode-marked_utf16,
}
use dockup.Base.{All, List, Str, is_space}
use dockup.Wsl.Listing.{parse_list_output}
use dockup.Wsl.Names.{IsName, listing, parse_list_output-listing}
use dockup.Relay.Ping.{parse_ping_ok, parse_ping_ok_later}

split_csv-join_example :
    split_csv (join_with (codes ",") (map quote (codes "dockup.exe" ∷ codes "12,344 K" ∷ [])))
    ≡ codes "dockup.exe" ∷ codes "12,344 K" ∷ []
split_csv-join_example =
    split_csv-join (codes "dockup.exe") (codes "12,344 K" ∷ []) (ground arith) (ground arith)

decode-encode_utf16_example :
    (decode_wsl_output (0xff ∷ 0xfe ∷ encode_utf16 (codes "dockup")) ≡ codes "dockup")
    × (decode_wsl_output (encode_utf16 (codes "dockup")) ≡ codes "dockup")
    × (decode_wsl_output (codes "dockup") ≡ codes "dockup")
decode-encode_utf16_example = decode-encode_utf16 (codes "dockup") (
  (refl, omega arith),
  (
    (refl, omega arith),
    ((refl, omega arith), ((refl, omega arith), ((refl, omega arith), ((refl, omega arith), tt)))),
  ),
)

-- Ä and a Greek letter
decode-marked_utf16_example :
    decode_wsl_output (0xff ∷ 0xfe ∷ encode_utf16 (0xc4 ∷ 0x3a9 ∷ []))
    ≡ utf8_text (0xc4 ∷ 0x3a9 ∷ [])
decode-marked_utf16_example =
    decode-marked_utf16 (0xc4 ∷ 0x3a9 ∷ []) (omega arith, (omega arith, tt))

parse_ping_ok_later_example :
    parse_ping_ok (codes "HTTP/1.1 500 Error, Content-Length: " ++ (codes "200" ++ codes ", oops"))
    ≡ true
parse_ping_ok_later_example =
    parse_ping_ok_later (codes "HTTP/1.1 500 Error, Content-Length: ") (codes ", oops")
      (omega arith)

parse_wsl_memory-Spelled_example :
    Spelled (split b'\n' (codes "[wsl2]\nmemory = 1536MB\n")) (1536 * 2 ^ 20)
    × (1536 * 2 ^ 20 ≤ max_uint64)
unfolding parse_wsl_memory split trim_space cut has_prefix has_suffix equal_fold parse_uint to_lower
    str_eq
parse_wsl_memory-Spelled_example =
    parse_wsl_memory-Spelled (codes "[wsl2]\nmemory = 1536MB\n") (1536 * 2 ^ 20) refl

abbrev up : Row
up = record {
  status = codes "running";
  autostart = codes "on";
  installed = codes "yes";
  size = codes "1.5 GB";
  memory = codes "90 MB";
}

abbrev two_names : List Str
two_names = codes "Ubuntu-24.04" ∷ codes "dockup" ∷ []

two_names-IsName : All IsName two_names
unfolding str_eq is_space
two_names-IsName = (
  record { some_text = refl; plain = ground arith; bare = ground arith },
  (record { some_text = refl; plain = ground arith; bare = ground arith }, tt),
)

parse_list_output-listing_example :
    (parse_list_output (0xff ∷ 0xfe ∷ encode_utf16 (listing two_names)) ≡ two_names)
    × (parse_list_output (encode_utf16 (listing two_names)) ≡ two_names)
    × (parse_list_output (listing two_names) ≡ two_names)
parse_list_output-listing_example = parse_list_output-listing two_names two_names-IsName
