-- ===== src/Digest/Tests.antt =====
-- Uses of the theorems on content digests.
use http_message_signatures.Common.{
  ℕ, ◌≡◌, refl, ◌↔◌, true, false, List, [], ◌∷◌, ◌++◌, arith, ltb, take, All, all, Bytes, IsByte,
  codes, equal, lookup, insert,
}
use http_message_signatures.Errors.{ok}
use mathlib.Core.List.{Permᴰ}
use http_message_signatures.Digest.Algorithms.{Hashes}
use http_message_signatures.Digest.Parse.{
  Digests, is_algorithm_supported, get_expected_digest_length, digest_bytes, parse_digest,
  parse_digests, parse_content_digest,
}
use http_message_signatures.Digest.Format.{format_content_digest}
use http_message_signatures.Digest.Format.Unordered.{format_content_digest-Perm}
use http_message_signatures.Parser.Validator.{contains}
use http_message_signatures.Stdlib.Base64.{decode_digit, decode_std}
use http_message_signatures.Sfv.Lexer.{
  head_or_nul, is_nil, pass_byte, consume, skip_bytes, check_input_length, ok,
}
use http_message_signatures.Sfv.Primitives.{
  is_alpha, is_digit, is_token_char, is_base64_char, finish_token, parse_token, seek_colon,
  decode_base64, finish_byte_sequence, close_byte_sequence, parse_byte_sequence,
}
use http_message_signatures.Sfv.Collections.{
  parse_bare_item, parameters_loop, parse_parameters, parse_item, parse_value, member_value,
  parse_dictionary_member, store, separator, dictionary_loop, parse_dictionary,
}
use http_message_signatures.Digest.Parse.Checked.{IsChecked, parse_content_digest-IsChecked}
use http_message_signatures.Digest.Format.Entries.{IsDigest}
use http_message_signatures.Digest.Format.RoundTrip.{parse_content_digest-format_content_digest}
use http_message_signatures.Digest.Verify.{
  Reader, verify_content_digest, verify_content_digest_bytes,
}
use http_message_signatures.Digest.Verify.Whole.{AllMatch, verify_content_digest_bytes_iff}
use http_message_signatures.Digest.Verify.Stream.{verify_content_digest_iff}

-- Hashes that keep the front of the body
abbrev front : ℕ → Bytes → Bytes
front n s = take n (s ++ codes "0123456789abcdef0123456789abcdef0123456789abcdef0123456789abcdef")

abbrev toy_hashes : Hashes
toy_hashes = record {
  sha256 = front 32;
  sha512 = front 64;
  sha512_256 = front 32;
  sha3_256 = front 32;
  sha3_512 = front 64;
  blake2b_256 = front 32;
  blake2b_512 = front 64;
}

abbrev body : Bytes
body = codes "hello"

abbrev header : Bytes
header = codes "sha-256=:aGVsbG8wMTIzNDU2Nzg5YWJjZGVmMDEyMzQ1Njc4OWE=:"

abbrev required : List Bytes
required = codes "sha-256" ∷ []

abbrev reader : Reader
reader = record { chunks = codes "hel" ∷ [] ∷ codes "lo" ∷ []; fails = false }

verify_content_digest_bytes_iff_example :
    (verify_content_digest_bytes toy_hashes body header required ≡ ok tt)
    ↔ AllMatch toy_hashes header body required
verify_content_digest_bytes_iff_example =
    verify_content_digest_bytes_iff toy_hashes body header required

verify_content_digest_iff_example :
    (verify_content_digest toy_hashes reader header required ≡ ok tt)
    ↔ ((false ≡ false) × (verify_content_digest_bytes toy_hashes body header required ≡ ok tt))
verify_content_digest_iff_example = verify_content_digest_iff toy_hashes reader header required

abbrev sha256_entry : Bytes × Bytes
sha256_entry = (codes "sha-256", codes "0123456789abcdef0123456789abcdef")

abbrev blake_entry : Bytes × Bytes
blake_entry = (codes "blake2b-256", codes "fedcba9876543210fedcba9876543210")

format_content_digest-Perm_example :
    format_content_digest (sha256_entry ∷ blake_entry ∷ [])
    ≡ format_content_digest (blake_entry ∷ sha256_entry ∷ [])
unfolding equal
format_content_digest-Perm_example =
    format_content_digest-Perm (sha256_entry ∷ blake_entry ∷ []) (blake_entry ∷ sha256_entry ∷ [])
      ((refl, tt), (tt, tt)) (Permᴰ.swap refl refl)

bytes-IsByte : (s : Bytes) → all (λ b. ltb b 256) s ≡ true → All IsByte s
bytes-IsByte [] h = tt
bytes-IsByte (b ∷ s) h = (ground arith, bytes-IsByte s (ground arith))

abbrev two_digests : Digests
two_digests = sha256_entry ∷ blake_entry ∷ []

entry-IsDigest : All (λ e. IsDigest e.0 e.1) two_digests
unfolding is_algorithm_supported contains equal get_expected_digest_length
entry-IsDigest = (
  record { supported = refl; size = refl; each = bytes-IsByte sha256_entry.1 refl },
  (record { supported = refl; size = refl; each = bytes-IsByte blake_entry.1 refl }, tt),
)

parse_content_digest-format_content_digest_example :
    (text : Bytes) × (format_content_digest two_digests ≡ ok text)
    × ((out : Digests) × (parse_content_digest text ≡ ok out)
        × ((k : Bytes) → lookup k out ≡ lookup k two_digests))
unfolding equal
parse_content_digest-format_content_digest_example =
    parse_content_digest-format_content_digest two_digests refl ((refl, tt), (tt, tt))
      entry-IsDigest

-- The header that `header` is
abbrev hello_digests : Digests
hello_digests = (codes "sha-256", codes "hello0123456789abcdef0123456789a") ∷ []

parse_content_digest-IsChecked_example : All IsChecked hello_digests × (false ≡ false)
unfolding parse_content_digest parse_digests parse_digest digest_bytes is_algorithm_supported
    contains get_expected_digest_length equal lookup insert check_input_length parse_dictionary
    dictionary_loop parse_dictionary_member parse_token finish_token member_value parse_value
    parse_item parse_bare_item parse_byte_sequence seek_colon close_byte_sequence
    finish_byte_sequence decode_base64 decode_std decode_digit parse_parameters parameters_loop
    separator store consume skip_bytes pass_byte head_or_nul is_nil is_token_char is_alpha is_digit
    is_base64_char
parse_content_digest-IsChecked_example = parse_content_digest-IsChecked header hello_digests refl
