-- ===== src/Protocol/Frames/Examples.antt =====
-- internal/protocol/frame.go on concrete frames, and its theorems at them.
use niulang.Prelude.{
  ℕ, ◌^◌, ◌≡◌, refl, arith, true, false, none, List, [], ◌∷◌, ◌++◌, length, replicate, put_be,
  get_be, ok, err, ◌↔◌,
}
use niulang.Protocol.{
  Header, Fits, encode, validate, decode_header, unknown_flags, unsupported_version, header_bytes,
  header_fields, type_valid, only_known, reserve_control_flag_valid, ack_ranges_flag_valid,
}
use niulang.Protocol.HeaderRoundTrip.{decode_header-encode, encode-iff-validate}
use niulang.Protocol.HeaderCanonical.{encode-decode_header}
use niulang.Protocol.Frames.{
  Frame, append_frame, parse_frame, parse_frame_owned, read_frame, Write, written, write_full,
  write_frame,
}
use niulang.Protocol.Frames.RoundTrip.{
  sent, parse_frame-append_frame, append_frame-parse_frame, read_frame-parse_frame,
  parse_frame-read_frame,
}
use niulang.Protocol.Frames.Writer.{read_frame-write_frame, write_full_total}

abbrev bulk_data : Header
bulk_data = record {
  version = 3;
  type = 4;
  flags = 1;
  session_id = replicate 16 9;
  flow_id = 7;
  sequence = 2 ^ 40;
  payload_len = 0;
  class = 2;
}

abbrev hello : Frame
hello = record { header = bulk_data; payload = 104 ∷ 105 ∷ [] }

abbrev hello_header : List ℕ
hello_header =
    87 ∷ 79 ∷ 3 ∷ 4 ∷ 0 ∷ 1 ∷ []
    ++ (replicate 16 9
        ++ (0 ∷ 0 ∷ 0 ∷ 0 ∷ 0 ∷ 0 ∷ 0 ∷ 7 ∷ 0 ∷ 0 ∷ 1 ∷ 0 ∷ 0 ∷ 0 ∷ 0 ∷ 0 ∷ 0 ∷ 0 ∷ 0 ∷ 2 ∷ 2 ∷ 0
            ∷ 0 ∷ 0 ∷ []))

abbrev hello_wire : List ℕ
hello_wire = hello_header ++ (104 ∷ 105 ∷ [])

bulk_data-Fits : Fits bulk_data
bulk_data-Fits = omega arith

sent-hello-Fits : Fits (sent hello).header
sent-hello-Fits = omega arith

append_frame-hello : append_frame (5 ∷ []) hello ≡ (5 ∷ hello_wire, none)
unfolding append_frame encode header_bytes type_valid only_known reserve_control_flag_valid
    ack_ranges_flag_valid put_be
append_frame-hello = refl

encode-hello : encode (sent hello).header (replicate 46 0) ≡ ok hello_header
unfolding encode header_bytes type_valid only_known reserve_control_flag_valid ack_ranges_flag_valid
    put_be
encode-hello = refl

decode_hello : decode_header hello_header ≡ ok (sent hello).header
decode_hello =
    (decode_header-encode (sent hello).header (replicate 46 0) hello_header sent-hello-Fits
      encode-hello).1

-- A header of another version, with an unknown flag, or cut short.
decode_old : decode_header (87 ∷ 79 ∷ 2 ∷ replicate 43 0) ≡ err (unsupported_version 2)
unfolding decode_header
decode_old = refl

validate_unknown_flag : validate (record bulk_data { flags = 64 }) ≡ err unknown_flags
unfolding validate type_valid only_known
validate_unknown_flag = refl

parse_hello : parse_frame_owned hello_wire ≡ ok (sent hello)
unfolding parse_frame_owned decode_header header_fields validate type_valid only_known
    reserve_control_flag_valid ack_ranges_flag_valid get_be
parse_hello = refl

-- Three short writes and one that fails after the frame is out.
abbrev short_writes : List Write
short_writes =
    record { count = 40; failed = false }
    ∷ record { count = 7; failed = false }
    ∷ record { count = 9; failed = false }
    ∷ record { count = 0; failed = true }
    ∷ []

write_frame-hello : write_frame short_writes hello ≡ (hello_wire, written)
unfolding write_frame write_full append_frame encode header_bytes type_valid only_known
    reserve_control_flag_valid ack_ranges_flag_valid put_be
write_frame-hello = refl

read_frame-write_frame_example : read_frame (hello_wire ++ (1 ∷ [])) ≡ (ok (sent hello), 1 ∷ [])
read_frame-write_frame_example =
    read_frame-write_frame short_writes hello hello_wire (1 ∷ []) bulk_data-Fits write_frame-hello

parse_frame-append_frame_example :
    (b : List ℕ) × (5 ∷ hello_wire ≡ (5 ∷ []) ++ b)
    × (parse_frame_owned b ≡ ok (sent hello))
    × (parse_frame b ≡ ok (sent hello))
parse_frame-append_frame_example =
    parse_frame-append_frame (5 ∷ []) hello (5 ∷ hello_wire) bulk_data-Fits append_frame-hello

append_frame-parse_frame_example : append_frame (5 ∷ []) (sent hello) ≡ (5 ∷ hello_wire, none)
append_frame-parse_frame_example =
    append_frame-parse_frame (5 ∷ []) hello_wire (sent hello) (omega arith) parse_hello

read_frame-parse_frame_example : read_frame (hello_wire ++ (1 ∷ [])) ≡ (ok (sent hello), 1 ∷ [])
read_frame-parse_frame_example = read_frame-parse_frame hello_wire (1 ∷ []) (sent hello) parse_hello

parse_frame-read_frame_example :
    (b : List ℕ) × (hello_wire ++ (1 ∷ []) ≡ b ++ (1 ∷ []))
    × (parse_frame_owned b ≡ ok (sent hello))
parse_frame-read_frame_example =
    parse_frame-read_frame (hello_wire ++ (1 ∷ [])) (1 ∷ []) (sent hello)
      (read_frame-parse_frame hello_wire (1 ∷ []) (sent hello) parse_hello)

decode_header-encode_example :
    (length hello_header ≡ 46) × (decode_header hello_header ≡ ok (sent hello).header)
decode_header-encode_example =
    decode_header-encode (sent hello).header (replicate 46 0) hello_header sent-hello-Fits
      encode-hello

encode-decode_header_example :
    Fits (sent hello).header
    × (validate (sent hello).header ≡ ok tt)
    × (encode (sent hello).header hello_header ≡ ok hello_header)
encode-decode_header_example =
    encode-decode_header hello_header (sent hello).header (omega arith) decode_hello

encode-iff-validate_example :
    (validate bulk_data ≡ ok tt) ↔ ((buf : List ℕ) × (encode bulk_data (replicate 46 0) ≡ ok buf))
encode-iff-validate_example = encode-iff-validate bulk_data (replicate 46 0) (omega arith)

write_full_total_example :
    write_full (replicate 3 (record { count = 1; failed = false })) (8 ∷ []) (1 ∷ 2 ∷ 3 ∷ [])
    ≡ (8 ∷ 1 ∷ 2 ∷ 3 ∷ [], written)
write_full_total_example =
    write_full_total (replicate 3 (record { count = 1; failed = false })) (8 ∷ []) (1 ∷ 2 ∷ 3 ∷ [])
      ((omega arith, refl), ((omega arith, refl), ((omega arith, refl), tt))) (omega arith)
