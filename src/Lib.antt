-- ===== src/Lib.antt =====
-- This library models and verifies an implementation of HTTP Message Signatures (RFC 9421).
--
-- A message is signed in pkg/httpsig: the signer builds the signature base of the message
-- (pkg/base), signs it with an algorithm of the registry (pkg/signing), and sets two header fields,
-- whose texts are structured fields (pkg/sfv). The verifier reads both fields (pkg/sfv,
-- pkg/parser), checks the covered components and the times against its policy, resolves key and
-- algorithm, rebuilds the base and verifies the signature.
--
-- The modules and the files they model, each function under its name in snake_case:
-- * Sfv (pkg/sfv): Types (limits.go and the data), Lexer (lexer.go), Primitives (primitives.go),
--   Collections (item.go, parameters.go, innerlist.go, list.go, dictionary.go), Serialize
--   (serialize.go). A scanner is its input in two parts, read and unread; each method takes a
--   scanner and returns a result with the next one. Sfv.Reads is about what each method reads,
--   Sfv.Bounded about what each method leaves and returns, on every input, and Sfv.Printed about
--   the characters that are written.
-- * Parser (pkg/parser): Types (types.go), Validator (validator.go), Signatures (parser.go), Times
--   (params_validation.go). Window is the policy on times in plain arithmetic, Valid and Timely are
--   about successful checks, Paired about the labels of the two fields.
-- * Base (pkg/base): Message (builder.go, adapter.go), Line (component_line.go,
--   signature_params.go), Extract (extract.go), Build (build.go and the rest of extract.go).
--   Agreement, OneLine, FieldLine, Binding, Injective and Returns are about the text of the base.
-- * Signing (pkg/signing): the registry (algorithm.go) and its start (Supported), the algorithms
--   (Hmac, Rsa, Ecdsa and Ed25519, after their files), and Keys (keys.go), over the crypto packages
--   (Crypto) and the decoders of keys. The two RSA algorithms are one definition over a scheme, and
--   so are the two ECDSA algorithms. The registry is a list from ids to algorithms, and an
--   operation returns the next one; the mutex makes each operation one step.
-- * Httpsig (pkg/httpsig): Serialize (serialize.go), Signer (signer.go), Equality, Policy and
--   Verifier (verifier.go). Required, Named, Resolved, Carried, Sound, Received, Authentic,
--   Conversion, RoundTrip, Accepts, Attached, Sent and Returns hold their properties.
-- * Digest (pkg/digest): Algorithms (algorithms.go, digest.go), Parse (parse.go), Format
--   (format.go), Verify (verify.go). A hash is its function and what was written to it; a reader is
--   the chunks that it returns, and whether an error ends them. Parse.Checked, Format.Unordered,
--   Format.RoundTrip, Verify.Whole and Verify.Stream hold their properties.
-- * Errors has a constructor for each error message, and the results of functions that can fail.
-- * Common and Stdlib have shared helpers, and the functions of Go's standard library that the
--   source calls: base64, strconv, the runes of a string, header maps.
--
-- A string and a byte slice are lists of bytes. An int64 is a signed integer; the parser bounds the
-- integers that it reads to 15 digits. A map is a list of pairs with distinct keys. A nil pointer
-- or interface is none or a constructor nil. The error value of a call and its result are one sum.
-- An instant of Parser.Times is a count of nanoseconds, with the wrap-around of time.Unix and the
-- saturation of Add. A map of header fields that may be nil is an option.
--
-- The loops that read a header field run on fuel, one more than the length of the input, since each
-- round takes at least one byte; out_of_fuel is a result of its own, apart from errors.
--
-- Parameters of the model are Go's crypto packages with their key types, the decoders of PEM and
-- X.509, the hash functions of digests, the algorithms of the registry that the signer and the
-- verifier use, the key resolver, the clock, and the methods of url.URL. A nil RSA key, and a nil
-- map of header fields that is set, on which the source panics, are errors of their own. Not
-- modelled are the text of error messages, randomness, the functions of pkg/base and pkg/sfv that
-- only their tests call, and examples.
pub mod Common
pub mod Stdlib
pub mod Sfv
pub mod Errors
pub mod Parser
pub mod Base
pub mod Signing
pub mod Digest
pub mod Httpsig
