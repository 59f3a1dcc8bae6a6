-- ===== src/Httpsig/Signer.antt =====
-- pkg/httpsig/signer.go, over the registry of algorithms.
use http_message_signatures.Common.{
  ℕ, Bool, false, ◌&&◌, Option, none, some, List, [], ◌∷◌, ◌==◌, if◌then◌else◌, Bytes, codes, ℤ,
  pos, negsuc,
}
use http_message_signatures.Errors.{
  nil_map, Outcome, ok, err, ◌>>=◌, ◌>>◌, error_if, algorithm_required, signing_key_required,
  request_required, response_required,
}
use http_message_signatures.Stdlib.Header
use http_message_signatures.Parser.Types.{ComponentIdentifier, SignatureParams}
use http_message_signatures.Base.Message.{
  fields, UrlMethods, Request, Response, HttpMessage, request, wrap_request, wrap_response,
}
use http_message_signatures.Base.Build.{build}
use http_message_signatures.Signing.{Algorithm, Registry, get_algorithm}
use http_message_signatures.Httpsig.Serialize.{
  is_empty, serialize_signature_input, serialize_signature,
}

-- What the signer reads of a `time.Time`: `Unix` and the nanoseconds behind it.
pub record Time : Type 0 where
  pub unix : ℤ
  pub nanoseconds : ℕ

-- `t.IsZero()`: 1 January of year 1.
unfoldable pub is_zero : Time → Bool
is_zero t = elim t.unix [ pos n ↦ false | negsuc n ↦ n == 62135596799 && t.nanoseconds == 0 ]

abbrev pub default_label : Bytes
default_label = codes "sig1"

-- `SignatureHeaders`
pub record SignatureHeaders : Type 0 where
  pub signature_input : Bytes
  pub signature : Bytes

module _ (Key : Type 0) where
  -- `SignerOptions`; `now` is what the hook would return.
  pub record SignerOptions : Type 0 where
    pub label : Bytes
    pub components : List ComponentIdentifier
    pub algorithm : Bytes
    pub key : Option Key
    pub key_id : Bytes
    pub nonce : Bytes
    pub tag : Bytes
    pub created : Time
    pub expires : Time
    pub disable_created : Bool
    pub disable_algorithm : Bool
    pub now : Option Time

  -- `Signer`
  pub record Signer : Type 0 where
    pub label : Bytes
    pub components : List ComponentIdentifier
    pub params : SignatureParams
    pub alg : Algorithm Key
    pub key : Key
    pub sig_input : Bytes

abbrev nonempty : Bytes → Option Bytes
nonempty [] = none
nonempty (c ∷ s) = some (c ∷ s)

-- The creation time, with the time that `time.Now` would return.
unfoldable pub created_param : {Key : Type 0} → Time → SignerOptions Key → Option ℤ
unfolding is_zero
created_param clock opts =
    if opts.disable_created
    then none
    else if is_zero opts.created
    then elim opts.now [ none ↦ some clock.unix | some t ↦ some t.unix ]
    else some opts.created.unix

-- The parameters that `NewSigner` builds.
unfoldable pub signer_params : {Key : Type 0} → Time → SignerOptions Key → SignatureParams
unfolding created_param is_zero
signer_params clock opts = record {
  created = created_param clock opts;
  expires = if is_zero opts.expires then none else some opts.expires.unix;
  nonce = nonempty opts.nonce;
  algorithm = if opts.disable_algorithm then none else some opts.algorithm;
  key_id = nonempty opts.key_id;
  tag = nonempty opts.tag;
}

abbrev pub present : {Key : Type 0} → Option Key → Outcome Key
present none = err signing_key_required
present (some k) = ok k

-- `NewSigner`
unfoldable pub new_signer :
    {Key : Type 0} → Registry Key → Time → SignerOptions Key → Outcome (Signer Key)
new_signer {Key} registry clock opts = do
  error_if (is_empty opts.algorithm) algorithm_required
  key ← present opts.key
  let label = if is_empty opts.label then default_label else opts.label
  alg ← get_algorithm Key registry opts.algorithm
  let params = signer_params clock opts
  sig_input ← serialize_signature_input label opts.components params
  ok (record {
    label = label;
    components = opts.components;
    params = params;
    alg = alg;
    key = key;
    sig_input = sig_input;
  })

-- The two calls of `Header.Set`
unfoldable pub attach : SignatureHeaders → Header.Header → Header.Header
attach headers h =
    Header.set (Header.set h (codes "Signature-Input") headers.signature_input) (codes "Signature")
      headers.signature

-- The two calls of `Header.Set` on a map that may be nil, which is a run-time panic.
unfoldable pub attach_to : SignatureHeaders → Option Header.Header → Outcome Header.Header
attach_to headers none = err nil_map
attach_to headers (some h) = ok (attach headers h)

module _ {Key : Type 0} (net : UrlMethods) where
  -- `signMessage`
  unfoldable pub sign_message : Signer Key → HttpMessage → Outcome SignatureHeaders
  sign_message s msg = do
    sig_base ← build net msg s.components s.params
    signature ← s.alg.sign sig_base s.key
    sig_header ← serialize_signature s.label signature
    ok (record { signature_input = s.sig_input; signature = sig_header })

  -- `SignRequest`: the headers, and the request that the caller holds afterwards.
  unfoldable pub sign_request : Signer Key → Option Request → Outcome (SignatureHeaders × Request)
  sign_request s none = err request_required
  sign_request s (some req) = do
    headers ← sign_message s (request (wrap_request req))
    signed ← attach_to headers req.header
    ok (headers, record req { header = some signed })

  -- `SignResponse`, which makes a map of header fields where there is none.
  unfoldable pub sign_response :
      Signer Key → Option Response → Option Request → Outcome (SignatureHeaders × Response)
  sign_response s none related = err response_required
  sign_response s (some resp) related = do
    let filled = record resp { header = some (fields resp.header) }
    headers ← sign_message s (wrap_response filled related)
    ok (headers, record filled { header = some (attach headers (fields resp.header)) })
