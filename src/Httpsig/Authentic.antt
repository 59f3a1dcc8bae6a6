-- ===== src/Httpsig/Authentic.antt =====
-- pkg/httpsig/verifier.go: what a verified message shares with the message that was signed.
use http_message_signatures.Common.{◌≡◌, List, All, Bytes}
use mathlib.Core.List.{Memᴰ}
use http_message_signatures.Httpsig.Signer.{Signer, SignatureHeaders, sign_message}
use http_message_signatures.Errors.{ok}
use http_message_signatures.Stdlib.Header
use http_message_signatures.Sfv.Types.{no_limits}
use http_message_signatures.Parser.Types.{SignatureEntry}
use http_message_signatures.Base.Message.{UrlMethods, HttpMessage}
use http_message_signatures.Base.Build.{build}
use http_message_signatures.Base.Binding.{DerivedInLine, HasSameValue}
use http_message_signatures.Base.Injective.{IsSignable}
use http_message_signatures.Httpsig.Policy.{Verifier}

-- A signer and a message
pub record SigningRun (Key : Type 0) : Type 0 where
  pub signer : Signer Key
  pub message : HttpMessage

-- The signer has signed the message; its components and parameters can be carried by the fields, and
-- the values of derived components are one line.
pub record IsLogged {Key : Type 0} (net : UrlMethods) (x : SigningRun Key) : Type 0 where
  pub headers : SignatureHeaders
  pub done : sign_message net x.signer x.message ≡ ok headers
  pub signable : IsSignable no_limits x.signer.components x.signer.params
  pub lines : All (DerivedInLine net x.message) x.signer.components

-- The text is the signature base of one of the messages.
pub record IsSigned {Key : Type 0} (net : UrlMethods) (log : List (SigningRun Key)) (text : Bytes)
    : Type 0 where
  pub signing : SigningRun Key
  pub listed : Memᴰ signing log
  pub built : build net signing.message signing.signer.components signing.signer.params ≡ ok text

-- The message that was signed, with the components and the parameters of the entry, and with the
-- values of the verified message.
pub record IsOriginal {Key : Type 0} (net : UrlMethods) (log : List (SigningRun Key))
    (msg : HttpMessage) (entry : SignatureEntry) : Type 0 where
  pub signing : SigningRun Key
  pub listed : Memᴰ signing log
  pub components : signing.signer.components ≡ entry.covered_components
  pub params : signing.signer.params ≡ entry.signature_params
  pub values : All (HasSameValue net signing.message msg) entry.covered_components
