-- ===== src/Protocol/Frames/Writer.antt =====
-- writeFull and WriteFrame of internal/protocol/frame.go, over writers that write short.
use niulang.Prelude.{
  ℕ, ◌≤◌, ◌≡◌, refl, sym, ap, ◌∙◌, arith, false, none, List, [], ◌∷◌, ◌++◌, length, take, drop, All,
  ok, Bool-cases, ◌==◌, inl, inr, take-append-drop, length-drop, Option-cases,
}
use niulang.Protocol.{Fits}
use niulang.Protocol.Frames.{
  Frame, Write, Outcome, written, write_full, append_frame, write_frame, read_frame,
}
use niulang.Protocol.Frames.RoundTrip.{sent, parse_frame-append_frame, read_frame-parse_frame}
use mathlib.Core.List.{append_assoc, append-nil}

-- What went out is a front of `p`, and all of it where the loop ended well.
pub record Sends (before p out : List ℕ) (o : Outcome) : Type 0 where
  pub done : List ℕ
  pub rest : List ℕ
  pub split : p ≡ done ++ rest
  pub appended : out ≡ before ++ done
  pub complete : o ≡ written → rest ≡ []

pub write_full-Sends :
    (calls : List Write) (before p out : List ℕ) (o : Outcome)
    → write_full calls before p ≡ (out, o)
    → Sends before p out o
unfolding write_full
write_full-Sends calls before [] out o e = record {
  done = [];
  rest = [];
  split = refl;
  appended = rw append-nil (cc);
  complete = λ q. refl;
}
write_full-Sends [] before (b ∷ p) out o e = record {
  done = [];
  rest = b ∷ p;
  split = refl;
  appended = rw append-nil (cc);
  complete = λ q. cc;
}
write_full-Sends (w ∷ calls) before (b ∷ p) out o e = elim (Bool-cases w.failed) [
  | inl bad ↦ record {
    done = take w.count (b ∷ p);
    rest = drop w.count (b ∷ p);
    split = sym (take-append-drop w.count (b ∷ p));
    appended = ground arith;
    complete = λ q. absurd (ground arith);
  }
  | inr good ↦ elim (Bool-cases (w.count == 0)) [
    | inl none_taken ↦ record {
      done = [];
      rest = b ∷ p;
      split = refl;
      appended = rw append-nil (ground arith);
      complete = λ q. absurd (ground arith);
    }
    | inr taken ↦
        let r =
          write_full-Sends calls (before ++ take w.count (b ∷ p)) (drop w.count (b ∷ p)) out o
            (ground arith) in
        record {
          done = take w.count (b ∷ p) ++ r.done;
          rest = r.rest;
          split =
              sym (take-append-drop w.count (b ∷ p))
              ∙ ap (λ t. take w.count (b ∷ p) ++ t) r.split
              ∙ sym (append_assoc (take w.count (b ∷ p)) r.done r.rest);
          appended = r.appended ∙ append_assoc before (take w.count (b ∷ p)) r.done;
          complete = r.complete;
        }
  ]
]

-- A call that makes progress and does not fail.
abbrev pub IsProgress : Write → Type 0
IsProgress w = (1 ≤ w.count) × (w.failed ≡ false)

not_zero : (w : Write) → 1 ≤ w.count → (w.count == 0) ≡ false
not_zero w h = ground arith

-- Enough calls that make progress carry everything.
pub write_full_total :
    (calls : List Write) (before p : List ℕ)
    → All IsProgress calls
    → length p ≤ length calls
    → write_full calls before p ≡ (before ++ p, written)
unfolding write_full
write_full_total calls before [] h l = rw append-nil
write_full_total [] before (b ∷ p) h l = absurd (omega arith)
write_full_total (w ∷ calls) before (b ∷ p) h l =
    rw (h.0.1, not_zero w h.0.0)
      (write_full_total calls (before ++ take w.count (b ∷ p)) (drop w.count (b ∷ p)) h.1
          (omega (arith, length-drop w.count (b ∷ p), h.0.0))
        ∙ ap (λ t. (t, written))
            (append_assoc before (take w.count (b ∷ p)) (drop w.count (b ∷ p))
              ∙ ap (λ t. before ++ t) (take-append-drop w.count (b ∷ p))))

write_frame-inv :
    (calls : List Write) (f : Frame) (out : List ℕ)
    → write_frame calls f ≡ (out, written)
    → (buf : List ℕ) × (append_frame [] f ≡ (buf, none))
      × (write_full calls [] buf ≡ (out, written))
unfolding write_frame
write_frame-inv calls f out e = elim (Option-cases (append_frame [] f).1) [
  | inl q ↦ ((append_frame [] f).0, ground arith, ground arith)
  | inr (x, q) ↦ absurd (ground arith)
]

-- When WriteFrame reports success, however short the writes were, a reader of what went out gets
-- the frame, and then what follows it.
pub read_frame-write_frame :
    (calls : List Write) (f : Frame) (out more : List ℕ)
    → Fits f.header
    → write_frame calls f ≡ (out, written)
    → read_frame (out ++ more) ≡ (ok (sent f), more)
read_frame-write_frame calls f out more fits e =
    let (buf, a, w) = write_frame-inv calls f out e in
    let s = write_full-Sends calls [] buf out written w in
    let (b, same, owned, copied) = parse_frame-append_frame [] f buf fits a in
    let all : out ≡ b =
      s.appended
      ∙ sym (append-nil s.done)
      ∙ ap (λ t. s.done ++ t) (sym (s.complete refl))
      ∙ sym s.split
      ∙ same in
    rw all (read_frame-parse_frame b more (sent f) owned)
