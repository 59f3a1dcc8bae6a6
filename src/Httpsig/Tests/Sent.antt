-- ===== src/Httpsig/Tests/Sent.antt =====
-- Uses of the theorem on a request from the options of its signer to the verifier.
use http_message_signatures.Common.{
  ◌≡◌, refl, true, false, none, some, [], ◌∷◌, All, codes, equal, lookup, pos, negsuc,
}
use http_message_signatures.Errors.{ok}
use http_message_signatures.Stdlib.Header
use http_message_signatures.Base.Message.{Request}
use http_message_signatures.Signing.{get_algorithm}
use http_message_signatures.Signing.Crypto.{Key, toy}
use http_message_signatures.Httpsig.Signer.{
  Time, SignerOptions, is_zero, created_param, signer_params, new_signer, sign_request,
}
use http_message_signatures.Httpsig.Verifier.{verify_request}
use http_message_signatures.Httpsig.Attached.{IsOther, sent_request}
use http_message_signatures.Httpsig.Sent.{verified, verify_request-sign_request}
use http_message_signatures.Httpsig.Tests.{
  net, registry, components, sig_base, signature, signature_text, signer, verifier, clock, test_key,
  signed, build_runs, sign_runs, input_runs, signature_runs, readable, accepts,
}

abbrev today : Request
today = record {
  method = codes "GET";
  url = none;
  host = codes "example.com";
  tls = true;
  header = some ((codes "Date", codes " today " ∷ []) ∷ []);
  trailer = [];
}

abbrev zero_time : Time
zero_time = record { unix = negsuc 62135596799; nanoseconds = 0 }

abbrev pub made_at : Time
made_at = record { unix = pos 1000; nanoseconds = 0 }

abbrev pub options : SignerOptions (Key toy)
options = record {
  label = [];
  components = components;
  algorithm = codes "hmac-sha256";
  key = some test_key;
  key_id = [];
  nonce = [];
  tag = [];
  created = zero_time;
  expires = zero_time;
  disable_created = false;
  disable_algorithm = false;
  now = none;
}

new_signer_runs : new_signer registry made_at options ≡ ok signer
unfolding new_signer get_algorithm signer_params created_param is_zero lookup equal
new_signer_runs = rw input_runs refl

others : All IsOther components
unfolding Header.canonical_header_key equal
others = ((refl, refl), ((refl, refl), tt))

verify_request-sign_request_example :
    (sign_request net signer (some today) ≡ ok (signed, sent_request signed today))
    × (verify_request net registry clock verifier (some (sent_request signed today))
        ≡ ok (verified signer signature sig_base))
verify_request-sign_request_example =
    verify_request-sign_request net registry made_at clock options signer verifier sig_base
      signature signature_text today ((codes "Date", codes " today " ∷ []) ∷ []) refl
      new_signer_runs others build_runs sign_runs signature_runs readable accepts
