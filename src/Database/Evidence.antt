-- ===== src/Database/Evidence.antt =====
-- What `failure_kind` says of an exception is founded on it.
use ch_diag.Database.Errors.{
  Failure, by_code, disconnect_tokens, failure_kind, has_any_code, has_code, has_disconnect_type,
  has_optional_code, has_timed_out, is_canceled, is_denied, lacks_capability, limit_kind,
  limit_or_other, mentions_any, other_kind, query_limit_code, timeout_evidence,
}
use ch_diag.Prelude.{
  Bool, List, Option, String, [], arith, false, none, refl, some, true, ℕ, ◌&&◌, ◌==◌, ◌||◌, ◌∷◌,
  ◌≡◌,
}
use ch_diag.Prelude.Lists.{elem}
use ch_diag.Prelude.Strings.{casefold_eq, mentions}
use ch_diag.Prelude.Tests.{if_both, if_cases, if◌then◌else◌}

abbrev pub failure_kinds : List String
failure_kinds =
    "query_timeout" ∷ "transport_disconnect" ∷ "result_limit" ∷ "read_limit" ∷ "query_canceled"
    ∷ "permission_denied" ∷ "unsupported_capability" ∷ []

-- the kind is known; the code of the server is named as the evidence only if there is one; and a
-- capability is unsupported only where it is optional
abbrev pub IsFounded : Failure → Bool → Option (String × String) → Type 0
IsFounded e optional none = Unit
IsFounded e optional (some (kind, evidence)) =
    (elem kind failure_kinds ≡ true)
    × ((evidence == "server_code") ≡ true → has_any_code e.code ≡ true)
    × ((kind == "unsupported_capability") ≡ true → optional ≡ true)

has_code-given : (o : Option ℕ) (n : ℕ) → has_code o n ≡ true → has_any_code o ≡ true
has_code-given none n h = h
has_code-given (some c) n h = refl

by_code-given :
    (e : Failure) (b : Bool)
    → (b ≡ true → has_any_code e.code ≡ true)
    → (by_code b == "server_code") ≡ true
    → has_any_code e.code ≡ true
by_code-given e true h k = h refl
by_code-given e false h k = absurd (let x : ⊥ = cc k in x)

module _ (e : Failure) (optional : Bool) where
  abbrev no_code : {A : Type 0} → false ≡ true → A
  no_code k = absurd (let x : ⊥ = cc k in x)

  other_kind-IsFounded : IsFounded e optional (other_kind e optional)
  unfolding other_kind
  other_kind-IsFounded =
      if_cases P (is_canceled e) _ _
        (λ t. (refl, by_code-given e (has_code e.code 394) (has_code-given e.code 394), no_code))
        λ f.
          if_cases P (is_denied e) _ _ (λ t. (refl, no_code, no_code))
            λ f.
              if_cases P (optional && lacks_capability e) _ _
                (λ t.
                  (refl, by_code-given e (has_optional_code e) optional_given, λ k. ground arith))
                λ f.
                  if_cases P (has_disconnect_type e || mentions_any e.text disconnect_tokens) _ _
                    (λ t. (refl, disconnect_evidence (has_disconnect_type e), no_code)) λ f. tt
    where
      P : Option (String × String) → Type 0
      P = IsFounded e optional

      optional_given : has_optional_code e ≡ true → has_any_code e.code ≡ true
      optional_given h = by_option e.code h
        where
          by_option :
              (o : Option ℕ)
              → (has_code o 46 || (has_code o 47 || has_code o 60)) ≡ true
              → has_any_code o ≡ true
          by_option none k = k
          by_option (some c) k = refl

      disconnect_evidence :
          (b : Bool)
          → ((if b then "exception_type" else "server_message") == "server_code") ≡ true
          → has_any_code e.code ≡ true
      disconnect_evidence true = no_code
      disconnect_evidence false = no_code

  limit-IsFounded :
      (limit : String)
      → IsFounded e optional (some (limit_kind limit, by_code (has_any_code e.code)))
  limit-IsFounded limit = by_test (mentions "result" limit)
    where
      given : (by_code (has_any_code e.code) == "server_code") ≡ true → has_any_code e.code ≡ true
      given = by_code-given e (has_any_code e.code) (λ h. h)

      by_test :
          (b : Bool)
          → IsFounded e optional
              (some (if b then "result_limit" else "read_limit", by_code (has_any_code e.code)))
      by_test true = (refl, given, no_code)
      by_test false = (refl, given, no_code)

  limit_or_other-IsFounded :
      (o : Option String) → IsFounded e optional (limit_or_other e optional o)
  unfolding limit_or_other
  limit_or_other-IsFounded none = other_kind-IsFounded
  limit_or_other-IsFounded (some limit) = limit-IsFounded limit

  -- The kind of a failure is one of those that policies name; its evidence is the code of the
  -- server only where the exception has a code, and the failure is an unsupported capability only
  -- where the capability is optional.
  pub failure_kind-IsFounded : IsFounded e optional (failure_kind e optional)
  unfolding failure_kind
  failure_kind-IsFounded =
      if_cases P e.is_timeout _ _ (λ t. (refl, no_code, no_code))
        λ f.
          if_cases P e.is_disconnect _ _ (λ t. (refl, no_code, no_code))
            λ f.
              if_cases P (has_timed_out e) _ _ (λ t. (refl, timeout_given, no_code))
                λ f. limit_or_other-IsFounded (query_limit_code e)
    where
      P : Option (String × String) → Type 0
      P = IsFounded e optional

      timeout_given : (timeout_evidence e == "server_code") ≡ true → has_any_code e.code ≡ true
      timeout_given =
          if_cases Q (has_code e.code 159) _ _ (λ t k. has_code-given e.code 159 t)
            (λ f. if_both Q (casefold_eq e.type_name "sockettimeouterror") _ _ no_code no_code)
        where
          Q : String → Type 0
          Q s = (s == "server_code") ≡ true → has_any_code e.code ≡ true
