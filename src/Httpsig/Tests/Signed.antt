-- ===== src/Httpsig/Tests/Signed.antt =====
-- Uses of the theorem on verified messages, with an algorithm that accepts one base.
use http_message_signatures.Common.{List, not, [], ◌∷◌, codes, equal}
use http_message_signatures.Errors.{ok, error_if, verification_failed}
use http_message_signatures.Signing.{Algorithm, Registry}
use http_message_signatures.Signing.Crypto.{Key, toy}
use http_message_signatures.Httpsig.Serialize
use http_message_signatures.Httpsig.Signer.{Signer}
use http_message_signatures.Httpsig.Accepts.{Accepts}
use http_message_signatures.Httpsig.Authentic.{SigningRun}
use http_message_signatures.Httpsig.Tests.{message, sig_base, signature, signer}

abbrev strict : Algorithm (Key toy)
strict = record {
  id = codes "hmac-sha256";
  sign = λ text key. ok signature;
  verify = λ text own key. error_if (not (equal text sig_base)) verification_failed;
}

abbrev registry : Registry (Key toy)
registry = (codes "hmac-sha256", strict) ∷ []

abbrev strict_signer : Signer (Key toy)
strict_signer = record signer { alg = strict }

abbrev log : List (SigningRun (Key toy))
log = record { signer = strict_signer; message = message } ∷ []
