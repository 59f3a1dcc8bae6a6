-- ===== src/Digest/Verify/Whole.antt =====
-- pkg/digest/verify.go: when the verification of a body succeeds.
use http_message_signatures.Common.{
  ◌≡◌, refl, ap, ◌∙◌, ◌↔◌, false, not, Option, none, some, List, [], ◌∷◌, arith, All, Bytes, equal,
  equal_iff, equal_refl, lookup,
}
use http_message_signatures.Errors.{
  Error, Outcome, ok, ◌>>=◌, ◌>>◌, error_if, wrap, >>=-eq-ok, error_if-ok, error_if->>=, ok_inj,
  wrap-ok, no_required_digests, missing_digest, digest_mismatch, failed_digest, failed_header,
}
use http_message_signatures.Digest.Algorithms.{Hashes, compute_digest}
use http_message_signatures.Digest.Parse.{Digests, is_empty, parse_content_digest}
use http_message_signatures.Digest.Verify.{
  found, compare_digest, verify_bytes, verify_content_digest_bytes,
}

-- The header has a digest for the algorithm, and it is that of the body.
pub record Matches (hashes : Hashes) (digests : Digests) (body algorithm : Bytes) : Type 0 where
  pub expected : Bytes
  pub given : lookup algorithm digests ≡ some expected
  pub computed : compute_digest hashes body algorithm ≡ ok expected

-- There are required algorithms, the header parses, and each of them matches.
pub record AllMatch (hashes : Hashes) (header body : Bytes) (required : List Bytes) : Type 0 where
  pub digests : Digests
  pub nonempty : is_empty required ≡ false
  pub parses : parse_content_digest header ≡ ok digests
  pub each : All (Matches hashes digests body) required

pub found-ok : {A : Type 0} (e : Error) (o : Option A) {a : A} → found e o ≡ ok a → o ≡ some a
found-ok e none h = cc
found-ok e (some b) h = ap some (ok_inj h)

pub compare_digest-ok :
    (algorithm actual expected : Bytes)
    → compare_digest algorithm actual expected ≡ ok tt
    → actual ≡ expected
compare_digest-ok algorithm actual expected h =
    let e = error_if-ok (not (equal actual expected)) (digest_mismatch algorithm) h in
    (equal_iff actual expected).0 (ground arith)

-- What both verifications do first
pub parse_step :
    (header : Bytes) (required : List Bytes) (next : Digests → Outcome (Unit {0}))
    → (do
      error_if (is_empty required) no_required_digests
      digests ← wrap failed_header (parse_content_digest header)
      next digests)
      ≡ ok tt
    → (is_empty required ≡ false)
      × ((digests : Digests) × (parse_content_digest header ≡ ok digests) × (next digests ≡ ok tt))
parse_step header required next h =
    let (nonempty, h1) = error_if->>= (is_empty required) no_required_digests _ h in
    let (digests, e, h2) = >>=-eq-ok (wrap failed_header (parse_content_digest header)) _ h1 in
    (nonempty, (digests, wrap-ok failed_header (parse_content_digest header) e, h2))

module _ (hashes : Hashes) where
  verify_bytes-Matches :
      (body : Bytes) (digests : Digests) (required : List Bytes)
      → verify_bytes hashes body digests required ≡ ok tt
      → All (Matches hashes digests body) required
  unfolding verify_bytes
  verify_bytes-Matches body digests [] h = tt
  verify_bytes-Matches body digests (alg ∷ required) h =
      let (expected, e, h1) = >>=-eq-ok (found (missing_digest alg) (lookup alg digests)) _ h in
      let (actual, f, h2) =
        >>=-eq-ok (wrap (failed_digest alg) (compute_digest hashes body alg)) _ h1 in
      let (u, g, h3) = >>=-eq-ok (compare_digest alg actual expected) _ h2 in
      let same = compare_digest-ok alg actual expected g in
      (
        record {
          expected = expected;
          given = found-ok (missing_digest alg) (lookup alg digests) e;
          computed = wrap-ok (failed_digest alg) (compute_digest hashes body alg) f ∙ ap ok same;
        },
        verify_bytes-Matches body digests required h3,
      )

  Matches-verify_bytes :
      (body : Bytes) (digests : Digests) (required : List Bytes)
      → All (Matches hashes digests body) required
      → verify_bytes hashes body digests required ≡ ok tt
  unfolding verify_bytes
  Matches-verify_bytes body digests [] h = refl
  Matches-verify_bytes body digests (alg ∷ required) (m, h) =
      rw (m.given, m.computed, equal_refl m.expected) (Matches-verify_bytes body digests required h)

-- The verification of a body succeeds exactly when algorithms are required, the header parses, and
-- for each required algorithm the header has a digest that is the digest of the body.
pub verify_content_digest_bytes_iff :
    (hashes : Hashes) (body header : Bytes) (required : List Bytes)
    → (verify_content_digest_bytes hashes body header required ≡ ok tt)
      ↔ AllMatch hashes header body required
unfolding verify_content_digest_bytes
verify_content_digest_bytes_iff hashes body header required = (
  λ h.
      let (nonempty, (digests, parses, h1)) =
        parse_step header required (λ d. verify_bytes hashes body d required) h in
      record {
        digests = digests;
        nonempty = nonempty;
        parses = parses;
        each = verify_bytes-Matches hashes body digests required h1;
      },
  λ m. rw (m.nonempty, m.parses) (Matches-verify_bytes hashes body m.digests required m.each),
)
