-- ===== src/Socks5/Writes.antt =====
-- writeFull of internal/socks5/socks5.go, and what is compared and cut in two.
use niulang.Prelude.{
  ℕ, ◌≡◌, ◌≢◌, refl, sym, ap, ◌∙◌, arith, Bool, true, List, [], ◌∷◌, ◌++◌, ◌==◌, if◌then◌else◌,
  length, take, drop, get_or, Result, ok, err, Bool-cases, inl, inr, take-append-drop, take_beyond,
  take_four,
}
use niulang.Net.Io.{Conn, IoError, write_failed, short_write, give-ok, fail-ok}
use niulang.Protocol.Frames.{Write}
use niulang.Socks5.{write_calls, written, write_full, constant_time_compare}
use mathlib.Core.List.{append_assoc, append-nil}

failed-ok :
    (x : IoError) (calls : List Write) (out : List ℕ) (after : List Write) (sent : List ℕ)
    → (let r : Result IoError (Unit {0}) × List Write × List ℕ = (err x, calls, out) in
        r ≢ (ok tt, after, sent))
failed-ok x calls out after sent e = absurd (cc)

-- What writeFull has done when it returns no error.
pub write_calls-ok :
    (calls after : List Write) (out sent p : List ℕ)
    → write_calls calls out p ≡ (ok tt, after, sent)
    → sent ≡ out ++ p
unfolding write_calls
write_calls-ok calls after out sent [] e = ap (λ t. t.2) (sym e) ∙ sym (append-nil out)
write_calls-ok [] after out sent (b ∷ p) e = ap (λ t. t.2) (sym e)
write_calls-ok (w ∷ calls) after out sent (b ∷ p) e =
    let Answer = Result IoError (Unit {0}) × List Write × List ℕ in
    let taken = out ++ take w.count (b ∷ p) in
    let rest = write_calls calls taken (drop w.count (b ∷ p)) in
    let second : Bool → Answer = λ t. if t then (err short_write, calls, taken) else rest in
    let first : Bool → Answer =
      λ t. if t then (err write_failed, calls, taken) else second (w.count == 0) in
    elim (Bool-cases w.failed) [
      | inl bad ↦ absurd (failed-ok write_failed calls taken after sent (ap first (sym bad) ∙ e))
      | inr good ↦ elim (Bool-cases (w.count == 0)) [
        | inl nothing ↦ absurd (
            failed-ok short_write calls taken after sent
              (ap second (sym nothing) ∙ ap first (sym good) ∙ e))
        | inr some ↦
            write_calls-ok calls after taken sent (drop w.count (b ∷ p))
              (ap second (sym some) ∙ ap first (sym good) ∙ e)
            ∙ append_assoc out (take w.count (b ∷ p)) (drop w.count (b ∷ p))
            ∙ ap (λ t. out ++ t) (take-append-drop w.count (b ∷ p))
      ]
    ]

healthy : (out p : List ℕ) → write_calls [] out p ≡ (ok tt, [], out ++ p)
unfolding write_calls
healthy out [] =
    ap (λ t. (let r : Result IoError (Unit {0}) × List Write × List ℕ = (ok tt, [], t) in r))
      (sym (append-nil out))
healthy out (b ∷ p) = refl

pub record Writes (p : List ℕ) (c d : Conn) : Type 0 where
  pub input : d.input ≡ c.input
  pub output : d.output ≡ c.output ++ p

written-ok :
    {E : Type 0} (wrap : IoError → E) (c d : Conn) (p : List ℕ)
    (r : Result IoError (Unit {0}) × List Write × List ℕ)
    → written wrap c r ≡ (ok tt, d)
    → write_calls c.calls c.output p ≡ r
    → Writes p c d
written-ok wrap c d p (ok u, calls, output) e w =
    let after = (give-ok u tt (record c { calls = calls; output = output }) d e).1 in
    record {
      input = ap (λ k. k.input) (sym after);
      output = ap (λ k. k.output) (sym after) ∙ write_calls-ok c.calls calls c.output output p w;
    }
written-ok wrap c d p (err x, calls, output) e w =
    absurd (fail-ok (wrap x) tt (record c { calls = calls; output = output }) d e)

pub write_full-ok :
    {E : Type 0} (wrap : IoError → E) (p : List ℕ) (c d : Conn)
    → write_full wrap p c ≡ (ok tt, d)
    → Writes p c d
unfolding write_full
write_full-ok wrap p c d e = written-ok wrap c d p (write_calls c.calls c.output p) e refl

-- A writer that takes everything.
pub write_full-append :
    {E : Type 0} (wrap : IoError → E) (p : List ℕ) (c : Conn)
    → c.calls ≡ []
    → write_full wrap p c ≡ (ok tt, record c { calls = []; output = c.output ++ p })
unfolding write_full
write_full-append wrap p c e =
    ap (λ calls. written wrap c (write_calls calls c.output p)) e
    ∙ ap (written wrap c) (healthy c.output p)

pub constant_time_compare-eq : (xs ys : List ℕ) → constant_time_compare xs ys ≡ true → xs ≡ ys
unfolding constant_time_compare
constant_time_compare-eq [] [] h = refl
constant_time_compare-eq [] (y ∷ ys) h = absurd (cc)
constant_time_compare-eq (x ∷ xs) [] h = absurd (cc)
constant_time_compare-eq (x ∷ xs) (y ∷ ys) h = ground (arith, constant_time_compare-eq xs ys)

pub constant_time_compare_refl : (xs : List ℕ) → constant_time_compare xs xs ≡ true
unfolding constant_time_compare
constant_time_compare_refl [] = refl
constant_time_compare_refl (x ∷ xs) = ground (arith, constant_time_compare_refl xs)

pub two_bytes : (xs : List ℕ) → length xs ≡ 2 → xs ≡ get_or xs 0 0 ∷ get_or xs 1 0 ∷ []
two_bytes [] h = absurd (omega arith)
two_bytes (a ∷ []) h = absurd (omega arith)
two_bytes (a ∷ b ∷ []) h = refl
two_bytes (a ∷ b ∷ c ∷ xs) h = absurd (omega arith)

pub one_byte : (xs : List ℕ) → length xs ≡ 1 → xs ≡ get_or xs 0 0 ∷ []
one_byte [] h = absurd (omega arith)
one_byte (a ∷ []) h = refl
one_byte (a ∷ b ∷ xs) h = absurd (omega arith)

pub four_bytes :
    (xs : List ℕ)
    → length xs ≡ 4
    → xs ≡ get_or xs 0 0 ∷ get_or xs 1 0 ∷ get_or xs 2 0 ∷ get_or xs 3 0 ∷ []
four_bytes xs h = sym (take_beyond 4 xs (omega (arith, h))) ∙ take_four xs 0 (omega (arith, h))
