-- ===== src/Protocol/Frames.antt =====
-- Whole frames of internal/protocol/frame.go: ReadFrame, ParseFrame, ParseFrameOwned, AppendFrame,
-- WriteFrame and writeFull. A reader is the bytes that it still delivers before end of file.
pub mod RoundTrip
pub mod Writer
mod Examples
use niulang.Prelude.{
  ℕ, zero, suc, ◌+◌, ◌-◌, ◌%◌, ◌^◌, ◌≤◌, Bool, Option, none, some, List, [], ◌∷◌, ◌++◌, ltb, leb,
  ◌==◌, if◌then◌else◌, length, take, drop, replicate, Result, ok, err, ◌>>=◌, ◌>>◌, ensure,
}
use niulang.Protocol.{
  Header, Error, header_size, max_payload, encode, decode_header, payload_exceeds_limit,
  unexpected_eof, eof, payload_mismatch, write_failed, short_write,
}

pub record Frame : Type 0 where
  pub header : Header
  pub payload : List ℕ

-- `AppendFrame(dst, f)`: the slice that is returned, and the error. The header is encoded into the
-- forty-six zero bytes appended to `dst`; on an error they are cut off again.
pub append_frame : List ℕ → Frame → List ℕ × Option Error
append_frame dst f =
    if ltb max_payload (length f.payload)
    then (dst, some payload_exceeds_limit)
    else elim (encode (record f.header { payload_len = length f.payload % 2 ^ 32 })
        (replicate header_size 0)) [
          | ok head ↦ ((dst ++ head) ++ f.payload, none)
          | err e ↦ (dst, some e)
        ]

pub parse_frame_owned : List ℕ → Result Error Frame
parse_frame_owned b = do
  ensure (leb header_size (length b)) unexpected_eof
  h ← decode_header (take header_size b)
  let rest = drop header_size b
  ensure (length rest == h.payload_len) payload_mismatch
  ok (record { header = h; payload = rest })

-- `make` and `copy`: a payload of the same length, filled from the old one.
copy_bytes : List ℕ → List ℕ
copy_bytes src = take (length src) src

pub parse_frame : List ℕ → Result Error Frame
parse_frame b = do
  frame ← parse_frame_owned b
  ok (record frame { payload = copy_bytes frame.payload })

-- io.ReadFull of `n` bytes, with what the reader holds afterwards.
read_full : List ℕ → ℕ → Result Error (List ℕ) × List ℕ
read_full r n =
    if leb n (length r)
    then (ok (take n r), drop n r)
    else if length r == 0
    then (err eof, [])
    else (err unexpected_eof, [])

read_payload : Header → Result Error (List ℕ) × List ℕ → Result Error Frame × List ℕ
read_payload h (ok payload, rest) = (ok (record { header = h; payload = payload }), rest)
read_payload h (err e, rest) = (err e, rest)

read_body : Result Error Header → List ℕ → Result Error Frame × List ℕ
read_body (ok h) r = read_payload h (read_full r h.payload_len)
read_body (err e) r = (err e, r)

read_header : Result Error (List ℕ) × List ℕ → Result Error Frame × List ℕ
read_header (ok raw, rest) = read_body (decode_header raw) rest
read_header (err e, rest) = (err e, rest)

pub read_frame : List ℕ → Result Error Frame × List ℕ
unfolding read_full read_payload read_body read_header
read_frame r = read_header (read_full r header_size)

-- One call of an io.Writer: the bytes that it takes, and whether it also returns an error.
pub record Write : Type 0 where
  pub count : ℕ
  pub failed : Bool

-- What writeFull has put on the writer, and how it ended. `blocked` is no Go value: the writer has
-- made all its listed calls and the loop waits for another.
pub data Outcome : Type 0 where
  written : Outcome
  failed : Error → Outcome
  blocked : Outcome

-- The loop of writeFull, over the calls that the writer will answer. `p = p[n:]` drops what was
-- taken, also when the call returns an error.
pub write_full : List Write → List ℕ → List ℕ → List ℕ × Outcome
write_full calls sent [] = (sent, written)
write_full [] sent (b ∷ p) = (sent, blocked)
write_full (w ∷ calls) sent (b ∷ p) =
    let rest = write_full calls (sent ++ take w.count (b ∷ p)) (drop w.count (b ∷ p)) in
    if w.failed
    then (sent ++ take w.count (b ∷ p), failed write_failed)
    else if w.count == 0
    then (sent, failed short_write)
    else rest

pub write_frame : List Write → Frame → List ℕ × Outcome
write_frame calls f =
    let (buf, e) = append_frame [] f in
    elim e [ none ↦ write_full calls [] buf | some e' ↦ ([], failed e') ]
