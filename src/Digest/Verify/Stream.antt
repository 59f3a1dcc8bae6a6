-- ===== src/Digest/Verify/Stream.antt =====
-- pkg/digest/verify.go: the verification of a stream, beside that of its bytes.
use http_message_signatures.Common.{
  ◌≡◌, refl, sym, ap, ◌∙◌, ◌↔◌, inl, inr, false, some, List, [], ◌∷◌, ◌++◌, append-nil,
  append_assoc, Bool-cases, All, Bytes, equal, equal_iff, equal_refl, lookup, insert, lookup-insert,
  some_inj,
}
use http_message_signatures.Errors.{
  ok, wrap, >>=-eq-ok, error_if->>=, ok_inj, wrap-ok, missing_digest, failed_digester_for,
  failed_digester, read_failed,
}
use http_message_signatures.Digest.Algorithms.{
  Hashes, Digester, write, sum, new_digester, compute_digest,
}
use http_message_signatures.Digest.Parse.{Digests}
use http_message_signatures.Digest.Verify.{
  found, compare_digest, Reader, Digesters, write_all, copy_chunks, copy, create_digesters,
  compare_digests, verify_content_digest, verify_content_digest_bytes,
}
use http_message_signatures.Digest.Verify.Whole.{
  Matches, found-ok, compare_digest-ok, parse_step, verify_content_digest_bytes_iff,
}

-- The bytes that a reader returns, in order
abbrev pub concat : List Bytes → Bytes
concat [] = []
concat (chunk ∷ chunks) = chunk ++ concat chunks

lookup-write_all :
    (chunk alg : Bytes) (hs : Digesters) (h : Digester)
    → lookup alg hs ≡ some h
    → lookup alg (write_all chunk hs) ≡ some (write chunk h)
unfolding lookup write_all
lookup-write_all chunk alg [] h e = cc
lookup-write_all chunk alg ((k, g) ∷ hs) h e = elim (Bool-cases (equal k alg)) [
  | inl same ↦ let i : some g ≡ some h = rw same at e in let j : g ≡ h = cc in rw (same, j) refl
  | inr other ↦ rw other (lookup-write_all chunk alg hs h (rw other at e))
]

-- What was written chunk by chunk was written at once.
lookup-copy_chunks :
    (chunks : List Bytes) (alg : Bytes) (hs : Digesters) (h : Digester)
    → lookup alg hs ≡ some h
    → lookup alg (copy_chunks chunks hs) ≡ some (write (concat chunks) h)
unfolding copy_chunks
lookup-copy_chunks [] alg hs h e =
    e ∙ ap some (ap (λ w. record h { written = w }) (sym (append-nil h.written)))
lookup-copy_chunks (chunk ∷ chunks) alg hs h e =
    lookup-copy_chunks chunks alg (write_all chunk hs) (write chunk h)
      (lookup-write_all chunk alg hs h e)
    ∙ ap some (ap (λ w. record h { written = w }) (append_assoc h.written chunk (concat chunks)))

-- A required algorithm that has its digest and its hasher
record IsCreated (hashes : Hashes) (digests : Digests) (hs : Digesters) (alg : Bytes) : Type 0 where
  expected : Bytes
  digester : Digester
  given : lookup alg digests ≡ some expected
  made : new_digester hashes alg ≡ ok digester
  kept : lookup alg hs ≡ some digester

module _ (hashes : Hashes) where
  create_digesters-keeps :
      (digests : Digests) (required : List Bytes) (before after : Digesters) (alg : Bytes)
      (h : Digester)
      → create_digesters hashes digests required before ≡ ok after
      → new_digester hashes alg ≡ ok h
      → lookup alg before ≡ some h
      → lookup alg after ≡ some h
  unfolding create_digesters
  create_digesters-keeps digests [] before after alg h e made k = rw (ok_inj e) at k
  create_digesters-keeps digests (a ∷ required) before after alg h e made k =
      let (expected, _, e1) = >>=-eq-ok (found (missing_digest a) (lookup a digests)) _ e in
      let (g, f, e2) = >>=-eq-ok (wrap (failed_digester_for a) (new_digester hashes a)) _ e1 in
      let made' = wrap-ok (failed_digester_for a) (new_digester hashes a) f in
      create_digesters-keeps digests required (insert a g before) after alg h e2 made (
        lookup-insert a alg g before ∙ (elim (Bool-cases (equal a alg)) [
          | inl same ↦ rw same (
              let s = (equal_iff a alg).0 same in
              let i : ok g ≡ ok h = sym made' ∙ (ap (new_digester hashes) s ∙ made) in
              ap some (ok_inj i))
          | inr other ↦ rw other k
        ]))

  create_digesters-IsCreated :
      (digests : Digests) (required : List Bytes) (before after : Digesters)
      → create_digesters hashes digests required before ≡ ok after
      → All (IsCreated hashes digests after) required
  unfolding create_digesters
  create_digesters-IsCreated digests [] before after e = tt
  create_digesters-IsCreated digests (a ∷ required) before after e =
      let (expected, d, e1) = >>=-eq-ok (found (missing_digest a) (lookup a digests)) _ e in
      let (g, f, e2) = >>=-eq-ok (wrap (failed_digester_for a) (new_digester hashes a)) _ e1 in
      let made = wrap-ok (failed_digester_for a) (new_digester hashes a) f in
      let put : lookup a (insert a g before) ≡ some g =
        rw (lookup-insert a a g before, equal_refl a) refl in
      (
        record {
          expected = expected;
          digester = g;
          given = found-ok (missing_digest a) (lookup a digests) d;
          made = made;
          kept = create_digesters-keeps digests required (insert a g before) after a g e2 made put;
        },
        create_digesters-IsCreated digests required (insert a g before) after e2,
      )

  compute_digest-digester :
      (alg body d : Bytes)
      → compute_digest hashes body alg ≡ ok d
      → (h : Digester) × (new_digester hashes alg ≡ ok h)
  unfolding compute_digest
  compute_digest-digester alg body d e =
      let (h, k, _) = >>=-eq-ok (wrap failed_digester (new_digester hashes alg)) _ e in
      (h, wrap-ok failed_digester (new_digester hashes alg) k)

  create_digesters-total :
      (digests : Digests) (required : List Bytes) (before : Digesters) (body : Bytes)
      → All (Matches hashes digests body) required
      → (after : Digesters) × (create_digesters hashes digests required before ≡ ok after)
  unfolding create_digesters
  create_digesters-total digests [] before body h = (before, refl)
  create_digesters-total digests (a ∷ required) before body (m, h) =
      let (g, e) = compute_digest-digester a body m.expected m.computed in
      let (after, k) = create_digesters-total digests required (insert a g before) body h in
      (after, rw (m.given, e) k)

  compute_digest-made :
      (alg body : Bytes) (h : Digester)
      → new_digester hashes alg ≡ ok h
      → compute_digest hashes body alg ≡ ok (sum (write body h))
  unfolding compute_digest
  compute_digest-made alg body h e = rw e refl

  -- The comparison of the sums with the digests, when every algorithm has both
  compare_digests-Matches :
      (digests : Digests) (chunks : List Bytes) (hs : Digesters) (required : List Bytes)
      → All (IsCreated hashes digests hs) required
      → (compare_digests digests (copy_chunks chunks hs) required ≡ ok tt)
        ↔ All (Matches hashes digests (concat chunks)) required
  unfolding compare_digests
  compare_digests-Matches digests chunks hs [] cs = (λ _. tt, λ _. refl)
  compare_digests-Matches digests chunks hs (a ∷ required) (c, cs) =
      let (there, back) = compare_digests-Matches digests chunks hs required cs in
      let filled = lookup-copy_chunks chunks a hs c.digester c.kept in
      let actual = sum (write (concat chunks) c.digester) in
      let computed = compute_digest-made a (concat chunks) c.digester c.made in
      (
        λ h.
            let (u, e, h1) =
              >>=-eq-ok (compare_digest a actual c.expected) _ (rw (filled, c.given) at h) in
            (
              record {
                expected = c.expected;
                given = c.given;
                computed = computed ∙ ap ok (compare_digest-ok a actual c.expected e);
              },
              there h1,
            ),
        λ (m, h).
            let i : some m.expected ≡ some c.expected = sym m.given ∙ c.given in
            let same : actual ≡ c.expected = ok_inj (sym computed ∙ m.computed) ∙ some_inj i in
            rw (filled, c.given, same, equal_refl c.expected) (back h),
      )

-- The verification of a stream succeeds exactly when the reader does not fail and the verification
-- of its chunks, joined, succeeds, in however many chunks they come.
pub verify_content_digest_iff :
    (hashes : Hashes) (reader : Reader) (header : Bytes) (required : List Bytes)
    → (verify_content_digest hashes reader header required ≡ ok tt) ↔ (
        (reader.fails ≡ false)
        × (verify_content_digest_bytes hashes (concat reader.chunks) header required ≡ ok tt))
unfolding verify_content_digest copy
verify_content_digest_iff hashes reader header required =
    let (there, back) =
      verify_content_digest_bytes_iff hashes (concat reader.chunks) header required in
    (
      λ h.
          let (nonempty, (digests, parses, h1)) = parse_step header required _ h in
          let (hs, created, h2) = >>=-eq-ok (create_digesters hashes digests required []) _ h1 in
          let (filled, copied, h3) = >>=-eq-ok (copy reader hs) _ h2 in
          let (sound, same) = error_if->>= reader.fails read_failed _ copied in
          let compared : compare_digests digests (copy_chunks reader.chunks hs) required ≡ ok tt =
            rw (ok_inj same) h3 in
          (
            sound,
            back (record {
              digests = digests;
              nonempty = nonempty;
              parses = parses;
              each =
                  (compare_digests-Matches hashes digests reader.chunks hs required
                      (create_digesters-IsCreated hashes digests required [] hs created)).0
                    compared;
            }),
          ),
      λ (sound, h).
          let m = there h in
          let (hs, created) =
            create_digesters-total hashes m.digests required [] (concat reader.chunks) m.each in
          let k =
            (compare_digests-Matches hashes m.digests reader.chunks hs required
                (create_digesters-IsCreated hashes m.digests required [] hs created)).1
              m.each in
          rw (m.nonempty, m.parses, created, sound) k,
    )
