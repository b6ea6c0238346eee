-- ===== src/Contract/Document/Binding.antt =====
-- `VerifyDigest` in internal/contract/models.go, and the content that a digest is taken of.
use estate_ci.Prelude.{
  ℕ, ◌/◌, ◌%◌, ◌<◌, ◌≡◌, ◌≢◌, ◌⊎◌, inl, inr, refl, sym, ap, ◌∙◌, Bool-cases, ◌&&◌, [], ◌∷◌, ◌++◌,
  Text, bytes, ok, >>=-eq-ok, >>-eq-ok, guard-ok, guard, on_error, on_error-eq-ok, is_ok,
  text_instance, text_eq, text_eq_iff, All, arith,
}
use mathlib.Core.Bool.{false≢true}
use estate_ci.Contract.Json.{Json}
use estate_ci.Go.Time.{Time}
use estate_ci.Go.Base64.{IsByte}
use estate_ci.Go.Hex.{hex, hex_char}
use estate_ci.Contract.Canonical.{write_canonical}
use estate_ci.Contract.Crypto.{Crypto, digest_of, validate_signature}
use estate_ci.Contract.Patterns.{is_digest}
use estate_ci.Contract.Document.{Document, material, verify_digest}

hex_char-inj : (m n : ℕ) → m < 16 → n < 16 → hex_char m ≡ hex_char n → m ≡ n
unfolding hex_char
hex_char-inj m n hm hn h = ground (arith, h)

hex-inj : (s t : Text) → All IsByte s → All IsByte t → hex s ≡ hex t → s ≡ t
unfolding hex
hex-inj [] [] hs ht h = refl
hex-inj [] (c ∷ t) hs ht h = cc
hex-inj (b ∷ s) [] hs ht h = cc
hex-inj (b ∷ s) (c ∷ t) (hb, hs) (hc, ht) h =
    let high : hex_char (b / 16) ≡ hex_char (c / 16) = cc in
    let low : hex_char (b % 16) ≡ hex_char (c % 16) = cc in
    let rest : hex s ≡ hex t = cc in
    let high_eq = hex_char-inj (b / 16) (c / 16) (omega arith) (omega arith) high in
    let low_eq = hex_char-inj (b % 16) (c % 16) (omega arith) (omega arith) low in
    let same : b ≡ c = omega (arith, high_eq, low_eq) in let tails = hex-inj s t hs ht rest in cc

append-inj : (p : Text) {s t : Text} → p ++ s ≡ p ++ t → s ≡ t
append-inj [] h = h
append-inj (b ∷ p) h = append-inj p cc

-- What `VerifyDigest` has gone through.
digested :
    {D : Type 0} (doc : Document D) (c : Crypto) (now : Time) (d : D)
    → verify_digest doc c now d ≡ ok tt
    → digest_of c (material doc d) ≡ ok (doc.digest d)
unfolding verify_digest
digested doc c now d h =
    let (g, h1) =
      >>-eq-ok (guard (is_ok (doc.validate now d) && is_digest (doc.digest d)) doc.unsealed_error) _
        h in
    let (v, h2) = >>-eq-ok (validate_signature (doc.signature d) []) _ h1 in
    let (got, e, h3) = >>=-eq-ok (on_error doc.digest_error (digest_of c (material doc d))) _ h2 in
    let same = (text_eq_iff (doc.digest d) got).0 (guard-ok _ _ h3) in
    on_error-eq-ok doc.digest_error (digest_of c (material doc d)) e ∙ ap ok (sym same)

-- The canonical text that a digest is one of.
digest_of-sum :
    (c : Crypto) (j : Json) (g : Text)
    → digest_of c j ≡ ok g
    → (p : Text) × (write_canonical j ≡ ok p) × (bytes "sha256:" ++ hex (c.sum256 p) ≡ g)
unfolding digest_of
digest_of-sum c j g h = let (p, e, k) = >>=-eq-ok (write_canonical j) _ h in (p, e, cc)

-- Two texts that SHA-256 does not tell apart.
pub record Collision (c : Crypto) (p q : Text) : Type 0 where
  pub apart : p ≢ q
  pub same_sum : c.sum256 p ≡ c.sum256 q

-- Two documents of one kind whose digests verify and are equal have the same canonical content,
-- their seals aside; or else the two contents are a collision of the hash function, whose values are
-- bytes.
pub same_digest-same_content :
    {D : Type 0} (doc : Document D) (c : Crypto) (now now' : Time) (d d' : D)
    → ((p : Text) → All IsByte (c.sum256 p))
    → verify_digest doc c now d ≡ ok tt
    → verify_digest doc c now' d' ≡ ok tt
    → doc.digest d ≡ doc.digest d'
    → (p : Text) × (q : Text) × (write_canonical (material doc d) ≡ ok p)
      × (write_canonical (material doc d') ≡ ok q)
      × ((p ≡ q) ⊎ Collision c p q)
same_digest-same_content doc c now now' d d' sums h h' same =
    let (p, e, k) = digest_of-sum c (material doc d) (doc.digest d) (digested doc c now d h) in
    let (q, e', k') =
      digest_of-sum c (material doc d') (doc.digest d') (digested doc c now' d' h') in
    let sum = hex-inj _ _ (sums p) (sums q) (append-inj (bytes "sha256:") (k ∙ same ∙ sym k')) in
    (
      p,
      q,
      e,
      e',
      elim (Bool-cases (text_eq p q)) [
        | inl equal ↦ inl ((text_eq_iff p q).0 equal)
        | inr different ↦ inr (record {
          apart = λ f. false≢true (sym different ∙ (text_eq_iff p q).1 f);
          same_sum = sum;
        })
      ],
    )
