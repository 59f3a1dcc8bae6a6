-- ===== src/Httpsig/Resolved.antt =====
-- The choice of the algorithm in pkg/httpsig/verifier.go: every source that names one agrees.
use http_message_signatures.Common.{
  ◌≡◌, refl, ap, ◌∙◌, ◌↔◌, Bool, true, false, not, ◌&&◌, ◌||◌, Option, none, some, arith, Bytes,
}
use http_message_signatures.Errors.{
  ok, >>=-eq-ok, algorithm_required_for_verification, algorithm_not_allowed, error_if->>=, ok_inj,
}
use http_message_signatures.Parser.Types.{SignatureParams}
use http_message_signatures.Parser.Validator.{contains}
use http_message_signatures.Httpsig.Serialize.{is_empty}
use http_message_signatures.Httpsig.Policy.{
  Verifier, initial_algorithm, merge_resolved_algorithm, resolve_key, resolve_key_and_algorithm,
  none_allowed, present,
}
use http_message_signatures.Httpsig.Named.{
  Agrees, AgreesOption, AgreesStrictly, IsNamed, initial_algorithm-Agrees,
  merge_resolved_algorithm-Agrees, Agrees-trans, AgreesOption-trans, initial_algorithm-IsNamed,
  merge_resolved_algorithm-IsNamed, merge_agreed, initial_agreed,
}

present-ok : {Key : Type 0} (o : Option Key) (k : Key) → present o ≡ ok k → o ≡ some k
present-ok none k h = cc
present-ok (some l) k h = ap some (ok_inj h)

not_excluded : (a b : Bool) → (not a && not b) ≡ false → (a || b) ≡ true
not_excluded true b h = refl
not_excluded false true h = refl
not_excluded false false h = cc

-- What is known of the key and the algorithm that are used.
pub record IsResolved {Key : Type 0} (v : Verifier Key) (label : Bytes) (params : SignatureParams)
    (key : Key) (alg : Bytes) : Type 0 where
  pub resolved : Bytes
  pub by_resolver : resolve_key v label params ≡ ok (some key, resolved)
  pub named : is_empty alg ≡ false
  pub own_agrees : Agrees v.algorithm alg
  pub param_agrees : AgreesOption params.algorithm alg
  pub resolver_agrees : Agrees resolved alg
  pub option_agrees : AgreesStrictly v.algorithm params.algorithm
  pub by_name : IsNamed v.algorithm params.algorithm resolved alg
  pub allowed : (none_allowed v.allowed_algorithms || contains v.allowed_algorithms alg) ≡ true

pub resolve_key_and_algorithm-IsResolved :
    {Key : Type 0} (v : Verifier Key) (label : Bytes) (params : SignatureParams) (key : Key)
    (alg : Bytes)
    → resolve_key_and_algorithm v label params ≡ ok (key, alg)
    → IsResolved v label params key alg
unfolding resolve_key_and_algorithm
resolve_key_and_algorithm-IsResolved {Key} v label params key alg h =
    let (own, e0, h0) = >>=-eq-ok (initial_algorithm v.algorithm params.algorithm) _ h in
    let (p, e1, h1) = >>=-eq-ok (resolve_key v label params) _ h0 in
    let (k, e2, h2) = >>=-eq-ok (present p.0) _ h1 in
    let (a, e3, h3) = >>=-eq-ok (merge_resolved_algorithm own p.1) _ h2 in
    let (named, h4) = error_if->>= (is_empty a) algorithm_required_for_verification _ h3 in
    let (allowed, h5) =
      error_if->>=
        (not (none_allowed v.allowed_algorithms) && not (contains v.allowed_algorithms a))
        (algorithm_not_allowed a) _ h4 in
    let pair : Key × Bytes = (k, a) in
    let same : pair ≡ (key, alg) = ok_inj h5 in
    let same_key : k ≡ key = ap (λ x. x.0) same in
    let same_alg : a ≡ alg = ap (λ x. x.1) same in
    let (own_agrees, param_agrees) = initial_algorithm-Agrees v.algorithm params.algorithm own e0 in
    let (option_agrees, source) = initial_algorithm-IsNamed v.algorithm params.algorithm own e0 in
    let (passed_on, resolver_agrees) = merge_resolved_algorithm-Agrees own p.1 a e3 in
    record {
      resolved = p.1;
      by_resolver = e1 ∙ ap (λ x. ok (x, p.1)) (present-ok p.0 key (e2 ∙ ap ok same_key));
      named = rw same_alg at named;
      own_agrees = rw same_alg at (Agrees-trans _ _ _ own_agrees passed_on);
      param_agrees =
          rw same_alg at (AgreesOption-trans params.algorithm own a param_agrees passed_on);
      resolver_agrees = rw same_alg at resolver_agrees;
      option_agrees = option_agrees;
      by_name =
          rw same_alg at
            (merge_resolved_algorithm-IsNamed own v.algorithm p.1 a params.algorithm source e3);
      allowed = rw same_alg at (not_excluded _ _ allowed);
    }

allowed_or : (a b : Bool) → (a || b) ≡ true → (not a && not b) ≡ false
allowed_or a b h = ground arith

IsResolved-resolve_key_and_algorithm :
    {Key : Type 0} (v : Verifier Key) (label : Bytes) (params : SignatureParams) (key : Key)
    (alg : Bytes)
    → IsResolved v label params key alg
    → resolve_key_and_algorithm v label params ≡ ok (key, alg)
unfolding resolve_key_and_algorithm
IsResolved-resolve_key_and_algorithm v label params key alg x =
    let (first, initial, agrees, otherwise) =
      initial_agreed v.algorithm params.algorithm x.resolved alg x.named x.own_agrees x.param_agrees
        x.option_agrees x.by_name in
    let merged = merge_agreed first x.resolved alg agrees x.resolver_agrees otherwise in
    rw (initial, x.by_resolver, merged, x.named, allowed_or _ _ x.allowed) refl

-- The verifier resolves a key and an algorithm exactly when the key comes from its key or its
-- resolver, the algorithm has a name that the verifier's option, the alg parameter or the resolver
-- gives, it agrees with each of the three that names one, the alg parameter is the option's name
-- when both are given, and the algorithm is in the allow list unless that is empty.
pub resolve_key_and_algorithm_iff :
    {Key : Type 0} (v : Verifier Key) (label : Bytes) (params : SignatureParams) (key : Key)
    (alg : Bytes)
    → (resolve_key_and_algorithm v label params ≡ ok (key, alg)) ↔ IsResolved v label params key alg
resolve_key_and_algorithm_iff v label params key alg = (
  resolve_key_and_algorithm-IsResolved v label params key alg,
  IsResolved-resolve_key_and_algorithm v label params key alg,
)
