-- ===== src/Versioning/RoundTrip.antt =====
-- A version that is printed is read back.
use ch_diag.Prelude.{[], ap, append-nil, refl, some, subst, sym, ℕ, ◌++◌, ◌∙◌, ◌∷◌, ◌≡◌}
use ch_diag.Prelude.Decimal.{
  IsNumeric, Stops, after_digits-append, digit_run-append, drop_spaces-digit, print_int-IsNumeric,
  print_int-cons, read_from-print_int,
}
use ch_diag.Prelude.Results.{ok}
use ch_diag.Prelude.Text.{Text, after_digits, digit_run, drop_spaces, print_int, read_from}
use ch_diag.Versioning.{Version, dotted, match_version, parse, str, text}

dotted_step :
    (s : Text) (d : ℕ) (ds rest : Text)
    → digit_run s ≡ d ∷ ds
    → after_digits s ≡ rest
    → dotted (b'.' ∷ s) ≡ (read_from 0 (d ∷ ds), rest)
unfolding dotted
dotted_step s d ds rest run after = rw (run, dotted) (rw after)

-- how a printed number stands at the start of a text
record IsRun (n : ℕ) (s rest : Text) : Type 0 where
  head : ℕ
  more : Text
  run : digit_run s ≡ head ∷ more
  after : after_digits s ≡ rest
  value : read_from 0 (head ∷ more) ≡ n

print_int-IsRun : (n : ℕ) (t : Text) → Stops t → IsRun n (print_int n ++ t) t
print_int-IsRun n t h =
    let (c, s, e) = print_int-cons n in
    record {
      head = c;
      more = s;
      run = digit_run-append (print_int n) t (print_int-IsNumeric n) h ∙ e;
      after = after_digits-append (print_int n) t (print_int-IsNumeric n) h;
      value = subst (λ u. read_from 0 u ≡ n) e (read_from-print_int n);
    }

dotted-print : (n : ℕ) (t : Text) → Stops t → dotted (b'.' ∷ (print_int n ++ t)) ≡ (n, t)
dotted-print n t h =
    let r = print_int-IsRun n t h in
    dotted_step (print_int n ++ t) r.head r.more t r.run r.after
    ∙ ap (λ (m : ℕ). (let p : ℕ × Text = (m, t) in p)) r.value

match_version_step :
    (s t₁ t₂ t₃ t₄ : Text) (a b c d : ℕ)
    → IsRun a (drop_spaces s) t₁
    → dotted t₁ ≡ (b, t₂)
    → dotted t₂ ≡ (c, t₃)
    → dotted t₃ ≡ (d, t₄)
    → match_version s ≡ some (record { major = a; minor = b; patch = c; revision = d })
unfolding match_version
match_version_step s t₁ t₂ t₃ t₄ a b c d r p₁ p₂ p₃ =
    rw (r.run, match_version) (rw (r.value, r.after, p₁, p₂, p₃))

drop_spaces-print : (n : ℕ) (t : Text) → drop_spaces (print_int n ++ t) ≡ print_int n ++ t
drop_spaces-print n t =
    let (c, s, e) = print_int-cons n in
    let digits : IsNumeric (c ∷ s) = subst IsNumeric e (print_int-IsNumeric n) in
    subst (λ u. drop_spaces (u ++ t) ≡ u ++ t) (sym e) (drop_spaces-digit c (s ++ t) digits.0)

dotted_end : (n : ℕ) → dotted (b'.' ∷ print_int n) ≡ (n, [])
dotted_end n =
    subst (λ u. dotted (b'.' ∷ u) ≡ (n, [])) (append-nil (print_int n)) (dotted-print n [] tt)

match_version-str : (v : Version) → match_version (str v) ≡ some v
unfolding str
match_version-str v =
    let tail₃ = b'.' ∷ print_int v.revision in
    let tail₂ = b'.' ∷ (print_int v.patch ++ tail₃) in
    let tail₁ = b'.' ∷ (print_int v.minor ++ tail₂) in
    match_version_step (print_int v.major ++ tail₁) tail₁ tail₂ tail₃ [] v.major v.minor v.patch
      v.revision
      (subst (λ u. IsRun v.major u tail₁) (sym (drop_spaces-print v.major tail₁))
        (print_int-IsRun v.major tail₁ refl))
      (dotted-print v.minor tail₂ refl) (dotted-print v.patch tail₃ refl) (dotted_end v.revision)

-- Parsing the text of a version gives the version back.
pub parse-str : (v : Version) → parse (text (str v)) ≡ ok v
unfolding parse
parse-str v = rw (match_version-str v, parse)
