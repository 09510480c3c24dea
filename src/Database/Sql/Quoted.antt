-- ===== src/Database/Sql/Quoted.antt =====
-- The literals that `quote_clickhouse_string` writes, also where they replace the
-- placeholder of a query, and a reader of them.
use ch_diag.Database.Session.{gave}
use ch_diag.Database.Sql.{
  cluster_target, contains, placeholder, quote_clickhouse_string, render_target_sql, replace_char,
  replace_from, starts_with,
}
use ch_diag.Prelude.{
  inl, inr, Bool, Option, String, [], ap, append_assoc, arith, false, none, refl, some, subst, sym,
  true, ℕ, ◌++◌, ◌==◌, ◌||◌, ◌∙◌, ◌∷◌, ◌≡◌,
}
use ch_diag.Prelude.Lists.{All}
use ch_diag.Prelude.Tests.{Bool-cases, if◌then◌else◌, nat_eq}
use ch_diag.Prelude.Text.{Text, codes}

abbrev pub cons_read : ℕ → Option (Text × Text) → Option (Text × Text)
cons_read c none = none
cons_read c (some r) = some (c ∷ r.0, r.1)

-- after the opening quote of a literal: what stands before the text
pub data Reading : Type 0 where
  inside after_backslash after_quote : Reading

-- After the opening quote: the value of a string literal of ClickHouse, and the text behind its
-- closing quote. A backslash keeps the character after it, and two quotes stand for one, as in
-- `_SQL_LITERAL_RE` of ch_diag/collector.py.
abbrev pub read_literal : Reading → Text → Option (Text × Text)
read_literal inside [] = none
read_literal after_backslash [] = none
read_literal after_quote [] = some ([], [])
read_literal after_backslash (c ∷ s) = cons_read c (read_literal inside s)
read_literal after_quote (c ∷ s) =
    let rest = read_literal inside s in if nat_eq c 39 then cons_read 39 rest else some ([], c ∷ s)
read_literal inside (c ∷ s) =
    let quoted = read_literal after_quote s in
    let kept = read_literal after_backslash s in
    let rest = read_literal inside s in
    if nat_eq c 39 then quoted else if nat_eq c 92 then kept else cons_read c rest

abbrev pub literal : Text → Option (Text × Text)
literal [] = none
literal (c ∷ s) = if nat_eq c 39 then read_literal inside s else none

abbrev pub escaped_text : Text → Text
escaped_text value = replace_char 39 (92 ∷ 39 ∷ []) (replace_char 92 (92 ∷ 92 ∷ []) value)

nat_eq-same : (c d : ℕ) → nat_eq c d ≡ true → d ≡ c
nat_eq-same c d h = ground arith

read_literal-closed :
    (t : Text) → starts_with t (39 ∷ []) ≡ false → read_literal after_quote t ≡ some ([], t)
read_literal-closed [] h = refl
read_literal-closed (c ∷ t) h = elim (Bool-cases (nat_eq c 39)) [
  | inl e ↦ absurd (let x : ⊥ = cc (rw e at h) in x)
  | inr e ↦ rw e refl
]

read_literal-escaped :
    (value t : Text)
    → starts_with t (39 ∷ []) ≡ false
    → read_literal inside (escaped_text value ++ (39 ∷ t)) ≡ some (value, t)
read_literal-escaped [] t h = read_literal-closed t h
read_literal-escaped (c ∷ s) t h =
    let ih = read_literal-escaped s t h in
    elim (Bool-cases (nat_eq c 92)) [
      | inl e ↦ let same = nat_eq-same c 92 e in rw (e, ih) (ap (λ n. some (n ∷ s, t)) same)
      | inr e ↦ elim (Bool-cases (nat_eq c 39)) [
        | inl q ↦ let same = nat_eq-same c 39 q in rw (e, q, ih) (ap (λ n. some (n ∷ s, t)) same)
        | inr q ↦ rw (e, q, q, e, ih) refl
      ]
    ]

-- Quoting: a reader of string literals, for which two quotes stand for one, reads the quoted string
-- as the string and stops at its end, whatever characters it has, where what follows starts with no
-- quote.
pub literal-quote :
    (value t : Text)
    → starts_with t (39 ∷ []) ≡ false
    → literal (quote_clickhouse_string value ++ t) ≡ some (value, t)
unfolding quote_clickhouse_string
literal-quote value t h =
    rw (append_assoc (escaped_text value) (39 ∷ []) t) (read_literal-escaped value t h)

-- the text has no opening brace
abbrev pub IsPlain : Text → Type 0
IsPlain s = All (λ c. nat_eq c 123 ≡ false) s

-- a character that starts no placeholder is kept
replace_from-kept :
    (c : ℕ) (s new : Text)
    → nat_eq c 123 ≡ false
    → replace_from 0 placeholder new (c ∷ s) ≡ c ∷ replace_from 0 placeholder new s
unfolding replace_from
replace_from-kept c s new h = rw (apart, replace_from) refl
  where
    apart : starts_with (c ∷ s) placeholder ≡ false
    apart = rw h refl

replace_from-plain : (s new : Text) → IsPlain s → replace_from 0 placeholder new s ≡ s
unfolding replace_from
replace_from-plain [] new h = refl
replace_from-plain (c ∷ s) new h =
    replace_from-kept c s new h.0 ∙ ap (λ (r : Text). c ∷ r) (replace_from-plain s new h.1)

replace_from-placeholder :
    (a b new : Text)
    → IsPlain a
    → IsPlain b
    → replace_from 0 placeholder new (a ++ (placeholder ++ b)) ≡ a ++ (new ++ b)
unfolding replace_from
replace_from-placeholder [] b new h k = ap (λ (r : Text). new ++ r) (replace_from-plain b new k)
replace_from-placeholder (c ∷ a) b new h k =
    replace_from-kept c (a ++ (placeholder ++ b)) new h.0
    ∙ ap (λ (r : Text). c ∷ r) (replace_from-placeholder a b new h.1 k)

contains-append : (old a s : Text) → contains old s ≡ true → contains old (a ++ s) ≡ true
contains-append old [] s h = h
contains-append old (c ∷ a) s h =
    subst (λ b. (starts_with (c ∷ (a ++ s)) old || b) ≡ true) (sym (contains-append old a s h))
      (or_true (starts_with (c ∷ (a ++ s)) old))
  where
    or_true : (b : Bool) → (b || true) ≡ true
    or_true true = refl
    or_true false = refl

contains-placeholder : (a b : Text) → contains placeholder (a ++ (placeholder ++ b)) ≡ true
contains-placeholder a b = contains-append placeholder a (placeholder ++ b) refl

-- A query for a cluster: where its text has one placeholder and no other opening brace, and no quote
-- stands behind the placeholder, the placeholder becomes a literal that reads as the name of the
-- cluster, and the text around it stays.
pub render_target_sql-literal :
    (a b : Text) (name : String)
    → IsPlain a
    → IsPlain b
    → starts_with b (39 ∷ []) ≡ false
    → (name == "") ≡ false
    → (q : Text) × (render_target_sql (a ++ (placeholder ++ b)) (cluster_target name)
        ≡ gave (a ++ (q ++ b)))
      × (literal (q ++ b) ≡ some (codes name, b))
unfolding render_target_sql
render_target_sql-literal a b name h k q e = (
  quote_clickhouse_string (codes name),
  rw
      (
        e,
        contains-placeholder a b,
        replace_from-placeholder a b (quote_clickhouse_string (codes name)) h k,
      )
      refl,
  literal-quote (codes name) b q,
)
