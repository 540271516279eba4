-- ===== src/Net/Io.antt =====
-- The io package of Go as internal/socks5 uses it: a connection is the bytes that it will still
-- deliver before end of file, the answers of the next calls of Write, and what it was sent. Behind
-- the listed answers, a call of Write takes all that it is given.
use niulang.Prelude.{
  ℕ, ◌≤◌, ◌≡◌, ◌≢◌, refl, sym, ap, ◌∙◌, arith, Bool, true, false, List, [], ◌∷◌, ◌++◌, leb, ◌==◌,
  if◌then◌else◌, length, take, drop, Result, ok, err, take-append-drop, take-append, drop_front,
  length-append, length-take, Bool-cases, inl, inr,
}
use niulang.Protocol.Frames.{Write}

pub record Conn : Type 0 where
  pub input : List ℕ
  pub calls : List Write
  pub output : List ℕ

-- io.EOF, io.ErrUnexpectedEOF, the writer's own error, and io.ErrShortWrite.
pub data IoError : Type 0 where
  eof unexpected_eof write_failed short_write : IoError

-- Code that reads and writes, and may return an error.
abbrev pub Io : Type 0 → Type 0 → Type 0
Io E A = Conn → Result E A × Conn

abbrev pub and_then : {E A B : Type 0} → Result E A × Conn → (A → Io E B) → Result E B × Conn
and_then (ok a, c) f = f a c
and_then (err e, c) f = (err e, c)

infixl 5 ◌>>=◌ ◌>>◌
abbrev pub ◌>>=◌ : {E A B : Type 0} → Io E A → (A → Io E B) → Io E B
(m >>= f) c = and_then (m c) f

abbrev pub ◌>>◌ : {E B : Type 0} → Io E (Unit {0}) → Io E B → Io E B
m >> k = m >>= λ _. k

abbrev pub give : {E A : Type 0} → A → Io E A
give a c = (ok a, c)

abbrev pub fail : {E A : Type 0} → E → Io E A
fail e c = (err e, c)

-- `if !b { return e }`
abbrev pub require : {E : Type 0} → Bool → E → Io E (Unit {0})
require true e = give tt
require false e = fail e

-- A call whose error is dropped.
abbrev pub quietly : {E F A : Type 0} → Io E A → Io F (Unit {0})
quietly m c = (ok tt, (m c).1)

abbrev pub recovered : {E A : Type 0} → Result E A × Conn → (E → Io E A) → Result E A × Conn
recovered (ok a, c) h = (ok a, c)
recovered (err e, c) h = h e c

-- `if err != nil`
abbrev pub recover : {E A : Type 0} → Io E A → (E → Io E A) → Io E A
recover m h c = recovered (m c) h

-- io.ReadFull of `n` bytes; the error is wrapped.
unfoldable pub read_full : {E : Type 0} → (IoError → E) → ℕ → Io E (List ℕ)
read_full wrap n c =
    if leb n (length c.input)
    then (ok (take n c.input), record c { input = drop n c.input })
    else (err (wrap (if length c.input == 0 then eof else unexpected_eof)), record c { input = [] })

-- One call of Write.
unfoldable pub write : List ℕ → Io IoError ℕ
write p c = elim c.calls [
  | [] ↦ (ok (length p), record c { output = c.output ++ p })
  | w ∷ calls ↦ (
    if w.failed then err write_failed else ok (length (take w.count p)),
    record c { calls = calls; output = c.output ++ take w.count p },
  )
]

module _ {E A : Type 0} where
  err-ne-ok :
      (x : E) (a : A) (d c : Conn) → (let r : Result E A × Conn = (err x, d) in r ≢ (ok a, c))
  err-ne-ok x a d c e = absurd (cc)

  ok-parts :
      (a b : A) (d c : Conn)
      → (let r : Result E A × Conn = (ok a, d) in r ≡ (ok b, c))
      → (a ≡ b) × (d ≡ c)
  ok-parts a b d c e =
      let value : Result E A × Conn → A = λ r. elim r.0 as (λ _. A) [ ok x ↦ x | err x ↦ a ] in
      (ap value e, ap (λ r. r.1) e)

-- What follows a call that went well.
pub and_then-ok :
    {E A B : Type 0} (r : Result E A × Conn) (f : A → Io E B) (b : B) (c : Conn)
    → and_then r f ≡ (ok b, c)
    → (a : A) × (d : Conn) × (r ≡ (ok a, d)) × (f a d ≡ (ok b, c))
and_then-ok (ok a, d) f b c e = (a, d, refl, e)
and_then-ok (err x, d) f b c e = absurd (err-ne-ok x b d c e)

pub require-ok :
    {E : Type 0} (b : Bool) (x : E) (c d : Conn) → require b x c ≡ (ok tt, d) → (b ≡ true) × (c ≡ d)
require-ok true x c d e = (refl, (ok-parts tt tt c d e).1)
require-ok false x c d e = absurd (err-ne-ok x tt c d e)

pub give-ok :
    {E A : Type 0} (a b : A) (c d : Conn)
    → (let r : Result E A × Conn = (ok a, c) in r ≡ (ok b, d))
    → (a ≡ b) × (c ≡ d)
give-ok a b c d e = ok-parts a b c d e

pub fail-ok :
    {E A : Type 0} (x : E) (b : A) (c d : Conn)
    → (let r : Result E A × Conn = (err x, c) in r ≢ (ok b, d))
fail-ok x b c d e = err-ne-ok x b c d e

-- What io.ReadFull has done when it returns bytes.
pub record Reads (n : ℕ) (xs : List ℕ) (c d : Conn) : Type 0 where
  pub input : c.input ≡ xs ++ d.input
  pub size : length xs ≡ n
  pub output : d.output ≡ c.output
  pub calls : d.calls ≡ c.calls

pub read_full-ok :
    {E : Type 0} (wrap : IoError → E) (n : ℕ) (c : Conn) (xs : List ℕ) (d : Conn)
    → read_full wrap n c ≡ (ok xs, d)
    → Reads n xs c d
unfolding read_full
read_full-ok {E} wrap n c xs d e =
    let short : Result E (List ℕ) × Conn =
      (err (wrap (if length c.input == 0 then eof else unexpected_eof)), record c { input = [] }) in
    let whole : Result E (List ℕ) × Conn =
      (ok (take n c.input), record c { input = drop n c.input }) in
    let answer : Bool → Result E (List ℕ) × Conn = λ b. if b then whole else short in
    elim (Bool-cases (leb n (length c.input))) [
      | inr few ↦ absurd (err-ne-ok _ xs (record c { input = [] }) d (ap answer (sym few) ∙ e))
      | inl enough ↦
          let (same, after) =
            ok-parts (take n c.input) xs (record c { input = drop n c.input }) d
              (ap answer (sym enough) ∙ e) in
          record {
            input =
                sym (take-append-drop n c.input)
                ∙ ap (λ t. t ++ drop n c.input) same
                ∙ ap (λ k. xs ++ k.input) after;
            size =
                let l : n ≤ length c.input = ground (arith, enough) in
                omega (arith, ap length same, length-take n c.input, l);
            output = ap (λ k. k.output) (sym after);
            calls = ap (λ k. k.calls) (sym after);
          }
    ]

-- io.ReadFull of bytes that are there.
pub read_full-append :
    {E : Type 0} (wrap : IoError → E) (n : ℕ) (xs ys : List ℕ) (c : Conn)
    → c.input ≡ xs ++ ys
    → length xs ≡ n
    → read_full wrap n c ≡ (ok xs, record c { input = ys })
unfolding read_full
read_full-append {E} wrap n xs ys c e l =
    let answer : Bool → List ℕ → Result E (List ℕ) × Conn = λ b input.
      if b then (ok (take n input), record c { input = drop n input }) else (
        err (wrap (if length input == 0 then eof else unexpected_eof)),
        record c { input = [] },
      ) in
    let enough : leb n (length (xs ++ ys)) ≡ true = ground (arith, l, length-append xs ys) in
    ap (λ input. answer (leb n (length input)) input) e
    ∙ ap (λ b. answer b (xs ++ ys)) enough
    ∙ ap
        (λ t.
          (let r : Result E (List ℕ) × Conn = (ok t, record c { input = drop n (xs ++ ys) }) in r))
        (take-append n xs ys l)
    ∙ ap (λ t. (let r : Result E (List ℕ) × Conn = (ok xs, record c { input = t }) in r))
        (drop_front n xs ys l)
