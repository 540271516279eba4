-- ===== src/Session/Examples.antt =====
-- The resume payloads of internal/session/packet.go for one token.
use niulang.Prelude.{ℕ, ◌≡◌, refl, true, false, some, List, ◌∷◌, ◌++◌, replicate, ok}
use niulang.Session.{
  udp_resume_marker, equal_bytes, is_udp_association, encode_udp_resume_open,
  decode_udp_resume_open, decode_udp_resume_grant,
}
use niulang.Session.Resume.{encode-decode_udp_resume_open}

abbrev sevens : List ℕ
sevens = replicate 16 7

decode-resume : decode_udp_resume_open (udp_resume_marker ++ sevens) ≡ some sevens
unfolding decode_udp_resume_open equal_bytes
decode-resume = refl

decode-grant : decode_udp_resume_grant (1 ∷ sevens) ≡ some (true, sevens)
unfolding decode_udp_resume_grant
decode-grant = refl

encode-decode_udp_resume_open_example :
    (encode_udp_resume_open sevens ≡ ok (udp_resume_marker ++ sevens))
    × (is_udp_association (udp_resume_marker ++ sevens) ≡ false)
encode-decode_udp_resume_open_example =
    encode-decode_udp_resume_open (udp_resume_marker ++ sevens) sevens decode-resume
