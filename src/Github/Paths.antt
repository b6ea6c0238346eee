-- ===== src/Github/Paths.antt =====
-- The API paths of internal/githubapp/client.go.
use estate_ci.Prelude.{
  ℕ, ◌≡◌, refl, ◌∙◌, Bool, true, false, ◌||◌, Option, some, [], ◌∷◌, ◌++◌, Text, bytes, all, nat_eq,
  if◌then◌else◌, ◌==◌, text_instance, text_eq_iff, arith, strip_prefix, Option-cases, inl, inr,
  subst, Bool-cases,
}
use estate_ci.Contract.Models.{
  OperationRequest, operation_refresh_health, operation_rerun_failed, operation_cancel_run,
}
use estate_ci.Contract.Patterns.{is_repository, is_alnum, headed}
use estate_ci.Github.Client.{before_slash, inside_estate, estate_segment, mutation}

strip_prefix-eq_some : (p s t : Text) → strip_prefix p s ≡ some t → s ≡ p ++ t
unfolding strip_prefix
strip_prefix-eq_some [] s t h = cc
strip_prefix-eq_some (x ∷ p) [] t h = cc
strip_prefix-eq_some (x ∷ p) (y ∷ s) t h = ground (arith, strip_prefix-eq_some p s t)

abbrev name_char : ℕ → Bool
name_char c = is_alnum c || nat_eq c b'.' || nat_eq c b'_' || nat_eq c b'-'

before_slash-append :
    (name rest : Text)
    → all name_char name ≡ true
    → before_slash (name ++ (b'/' ∷ rest)) ≡ some name
unfolding before_slash all is_alnum
before_slash-append [] rest h = refl
before_slash-append (c ∷ name) rest h = ground (arith, before_slash-append name rest)

headed-all : (name : Text) → headed is_alnum name_char 0 99 name ≡ true → all name_char name ≡ true
unfolding headed all
headed-all [] h = cc
headed-all (c ∷ name) h = ground arith

before_slash-github :
    (rest : Text) → before_slash (bytes ".github" ++ (b'/' ∷ rest)) ≡ some (bytes ".github")
unfolding before_slash bytes
before_slash-github rest = refl

-- A name of a repository, and a slash.
segment-append :
    (name rest : Text)
    → (name == bytes ".github" || headed is_alnum name_char 0 99 name) ≡ true
    → estate_segment (before_slash (name ++ (b'/' ∷ rest))) ≡ true
segment-append name rest h = elim (Bool-cases (name == bytes ".github")) [
  | inl dot ↦
      let same : name ≡ bytes ".github" = (text_eq_iff name (bytes ".github")).0 dot in
      let e : before_slash (name ++ (b'/' ∷ rest)) ≡ some name =
        rw same (before_slash-github rest) in
      rw e h
  | inr other ↦
      let named : headed is_alnum name_char 0 99 name ≡ true = rw other at h in
      rw (before_slash-append name rest (headed-all name named)) h
]

below_estate :
    (name rest : Text)
    → inside_estate (bytes "/repos/" ++ ((bytes "mindclade/" ++ name) ++ (b'/' ∷ rest)))
      ≡ estate_segment (before_slash (name ++ (b'/' ∷ rest)))
unfolding inside_estate
below_estate name rest = refl

-- A path below a repository of the estate lies inside the boundary that `do` tests.
inside_estate-path :
    (repository rest : Text)
    → is_repository repository ≡ true
    → inside_estate (bytes "/repos/" ++ (repository ++ (b'/' ∷ rest))) ≡ true
unfolding is_repository
inside_estate-path repository rest h =
    elim (Option-cases (strip_prefix (bytes "mindclade/") repository)) [
      | inl other ↦ absurd (cc (rw other at h))
      | inr (name, e) ↦
          let whole = strip_prefix-eq_some (bytes "mindclade/") repository name e in
          rw whole (below_estate name rest ∙ segment-append name rest (rw e at h))
    ]

-- Every mutation path of `q` lies inside.
record Inside (q : Option (Text × Text)) : Type 0 where
  inside : (path body : Text) → q ≡ some (path, body) → inside_estate path ≡ true

Inside-if :
    (b : Bool) (x y : Option (Text × Text)) → Inside x → Inside y → Inside (if b then x else y)
Inside-if true x y h k = h
Inside-if false x y h k = k

Inside-some : (p : Text) (body : Text) → inside_estate p ≡ true → Inside (some (p, body))
Inside-some p body h = record { inside = λ path b e. subst (λ t. inside_estate t ≡ true) (cc) h }

mutation-Inside : (r : OperationRequest) → is_repository r.repository ≡ true → Inside (mutation r)
unfolding mutation bytes
mutation-Inside r valid =
    Inside-if (r.operation == operation_rerun_failed) _ _
      (Inside-some _ _ (inside_estate-path r.repository _ valid))
      (Inside-if (r.operation == operation_cancel_run) _ _
        (Inside-some _ _ (inside_estate-path r.repository _ valid))
        (Inside-if (r.operation == operation_refresh_health) _ _
          (Inside-some _ _ (inside_estate-path r.repository _ valid))
          (record { inside = λ path body e. cc })))

-- For a request whose repository has a valid name, the path of its mutation lies inside the boundary
-- of the estate, so that `do` does not stop it, whatever its other fields are.
mutation-inside :
    (r : OperationRequest) (path body : Text)
    → is_repository r.repository ≡ true
    → mutation r ≡ some (path, body)
    → inside_estate path ≡ true
mutation-inside r path body valid h = (mutation-Inside r valid).inside path body h
