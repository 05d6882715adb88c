-- ===== src/Transport/Verified.antt =====
-- The objects that the checks of evidence of reporting_transport/storage.py accept.
use reporting_platform_local.Common.{
  ℕ, Bool, true, false, not, ◌&&◌, Option, none, some, length, String, ◌==◌, Result, ok, err, ◌≡◌,
  refl, sym, ap, ◌∙◌, subst, arith, nat_eq, string_eq, eq_of_==,
}
use reporting_platform_local.Transport.Paths.{TransportError, evidence_error}
use reporting_platform_local.Transport.Actions.{
  Action, next, pure, attempt, ◌>>=◌, Ensures, Ensures-bind, Ensures-refuse_if,
  Ensures-refuse_if_last, Ensures-attempt,
}
use reporting_platform_local.Transport.Client.{Bytes, Head, Client, Digest, hexdigest}
use reporting_platform_local.Transport.Stored.{IsDigest, IsClient, HasEvidence}
use reporting_platform_local.Transport.Evidence.{
  present, expected_b64, is_plain, judge_plain, judge_checksum, judge_head, try_cheap_verify,
  verify_object_evidence, verify_unless, cheaply, confirm_durable,
}

module _ {S A B : Type 0} where
  Ensures-present_next :
      (p : Result TransportError (Option A) × S) (k : A → Action S B) (Q : B → S → Type 0)
      → ((a : A) → p.0 ≡ ok (some a) → Ensures (k a) p.1 Q)
      → (b : B) → (next (next p present) k).0 ≡ ok b
      → Q b (next (next p present) k).1
  Ensures-present_next (ok (some a), s) k Q h b e = h a refl b e
  Ensures-present_next (ok none, s) k Q h b e = cc
  Ensures-present_next (err fault, s) k Q h b e = cc

  -- The answer of a client, where a missing object is refused
  Ensures-present :
      (m : Action S (Option A)) (k : A → Action S B) (s : S) (Q : B → S → Type 0)
      → ((a : A) → (m s).0 ≡ ok (some a) → Ensures (k a) (m s).1 Q)
      → Ensures (m >>= present >>= k) s Q
  Ensures-present m k s Q h = Ensures-present_next (m s) k Q h

  pub Ensures-then :
      (m : Action S A) (k : A → Action S B) (s : S) (P : A → S → Type 0) (Q : B → S → Type 0)
      → Ensures m s P
      → ((a : A) → P a (m s).1 → Ensures (k a) (m s).1 Q)
      → Ensures (m >>= k) s Q
  Ensures-then m k s P Q h later = Ensures-bind m k s Q (λ a e. later a (h a e))

pub Ensures-pure :
    {S A : Type 0} (a : A) (s : S) (Q : A → S → Type 0) → Q a s → Ensures (pure a) s Q
Ensures-pure a s Q h b e = subst (λ b. Q b s) (ground (arith, e)) h

module _ {S : Type 0} (client : Client S) (digest : Digest) (object_at : S → String → Option Bytes)
    (promised : IsClient client digest object_at) where
  pub verify_object_evidence-HasEvidence :
      (key : String) (n : ℕ) (sha256 : String) (s : S)
      → Ensures
          (verify_object_evidence client digest key n sha256)
          s
          (λ _. HasEvidence client digest object_at key n sha256)
  unfolding verify_object_evidence
  verify_object_evidence-HasEvidence key n sha256 s =
      let Evidence = λ (_ : Unit {0}). HasEvidence client digest object_at key n sha256 in
      Ensures-present (client.head_object false key) _ s Evidence (λ head found.
        Ensures-refuse_if (not (head.content_length == n)) evidence_error _ _ Evidence (λ same.
          Ensures-present (client.get_object key) _ _ Evidence (λ body read.
            Ensures-refuse_if_last (not (length body == n && hexdigest digest body == sha256))
              evidence_error _ Evidence
              (λ right. (
                body,
                promised.got key _ body read,
                ground (arith, right),
                ground (arith, right),
              )))))

  same_digest :
      (codec : IsDigest digest) (a b : Bytes) (c : String)
      → c ≡ digest.b64encode (digest.sha256 a)
      → c ≡ expected_b64 digest (hexdigest digest b)
      → hexdigest digest a ≡ hexdigest digest b
  unfolding hexdigest
  same_digest codec a b c e f =
      ap digest.hex
        (codec.b64encode_inj a b (sym e ∙ f ∙ ap digest.b64encode (codec.fromhex_hex b)))

  -- What an answer to `head_object` says of the object
  abbrev IsHeaded : String → Option (Option Head) → S → Type 0
  IsHeaded key none s = Unit
  IsHeaded key (some none) s = Unit
  IsHeaded key (some (some head)) s =
      (body : Bytes) × (object_at s key ≡ some body)
      × (length body ≡ head.content_length)
      × ((c : String)
          → head.checksum ≡ some c
          → is_plain digest c ≡ true
          → c ≡ digest.b64encode (digest.sha256 body))

  looked_up :
      (key : String) (s : S) (o : Option Head)
      → (client.head_object true key s).0 ≡ ok o
      → IsHeaded key (some o) (client.head_object true key s).1
  looked_up key s none found = tt
  looked_up key s (some head) found = promised.headed true key s head found

  judge_plain-accepts :
      (b : Bool) (expected c : String) (s : S) (P : S → Type 0)
      → (b ≡ true → c ≡ expected → P s)
      → Ensures (judge_plain client digest b expected c) s (λ cheap after. cheap ≡ true → P after)
  judge_plain-accepts false expected c s P h cheap e true_ = absurd (ground (arith, e, true_))
  judge_plain-accepts true expected c s P h cheap e true_ =
      Ensures-refuse_if (not (c == expected)) evidence_error (pure true) s
        (λ cheap after. cheap ≡ true → P after)
        (λ same cheap e true_. h refl (eq_of_== c expected (ground (arith, same)))) cheap e true_

  judge_checksum-accepts :
      (sha256 : String) (o : Option String) (s : S) (P : S → Type 0)
      → ((c : String)
          → o ≡ some c
          → is_plain digest c ≡ true
          → c ≡ expected_b64 digest sha256
          → P s)
      → Ensures (judge_checksum client digest sha256 o) s (λ cheap after. cheap ≡ true → P after)
  judge_checksum-accepts sha256 none s P h cheap e true_ = absurd (ground (arith, e, true_))
  judge_checksum-accepts sha256 (some c) s P h cheap e true_ =
      judge_plain-accepts (is_plain digest c) (expected_b64 digest sha256) c s P (h c refl) cheap e
        true_

  judge_head-HasEvidence :
      (codec : IsDigest digest) (key : String) (n : ℕ) (sent : Bytes) (o : Option (Option Head))
      (s : S)
      → IsHeaded key o s
      → Ensures (judge_head client digest n (hexdigest digest sent) o) s (λ cheap after.
        cheap ≡ true → HasEvidence client digest object_at key n (hexdigest digest sent) after)
  judge_head-HasEvidence codec key n sent none s h cheap e true_ = absurd (ground (arith, e, true_))
  judge_head-HasEvidence codec key n sent (some none) s h cheap e true_ = cc
  judge_head-HasEvidence codec key n sent (some (some head)) s (body, here, size, plain) cheap e
        true_ =
      let expected = expected_b64 digest (hexdigest digest sent) in
      Ensures-refuse_if (not (head.content_length == n)) evidence_error
        (judge_checksum client digest (hexdigest digest sent) head.checksum) s
        (λ cheap after.
          cheap ≡ true → HasEvidence client digest object_at key n (hexdigest digest sent) after)
        (λ same.
          judge_checksum-accepts (hexdigest digest sent) head.checksum s
            (HasEvidence client digest object_at key n (hexdigest digest sent))
            (λ c given p agrees. (
              body,
              here,
              size ∙ eq_of_== head.content_length n (ground (arith, same)),
              same_digest codec body sent c (plain c given p) agrees,
            )))
        cheap e true_

  pub try_cheap_verify-HasEvidence :
      (codec : IsDigest digest) (key : String) (n : ℕ) (sent : Bytes) (s : S)
      → Ensures (try_cheap_verify client digest key n (hexdigest digest sent)) s (λ cheap after.
        cheap ≡ true → HasEvidence client digest object_at key n (hexdigest digest sent) after)
  unfolding try_cheap_verify
  try_cheap_verify-HasEvidence codec key n sent s =
      let Cheap = λ (cheap : Bool) (after : S).
        cheap ≡ true → HasEvidence client digest object_at key n (hexdigest digest sent) after in
      Ensures-then (attempt (client.head_object true key))
        (judge_head client digest n (hexdigest digest sent)) s (IsHeaded key) Cheap
        (Ensures-attempt (client.head_object true key) s (IsHeaded key) tt
          (λ o found. looked_up key s o found))
        (λ o h. judge_head-HasEvidence codec key n sent o _ h)

  pub verify_unless-HasEvidence :
      (b : Bool) (key : String) (n : ℕ) (sha256 : String) (s : S)
      → (b ≡ true → HasEvidence client digest object_at key n sha256 s)
      → Ensures
          (verify_unless client digest b key n sha256)
          s
          (λ _. HasEvidence client digest object_at key n sha256)
  verify_unless-HasEvidence true key n sha256 s h =
      Ensures-pure true s (λ _. HasEvidence client digest object_at key n sha256) (h refl)
  verify_unless-HasEvidence false key n sha256 s h =
      let Evidence = λ (b : Bool). HasEvidence client digest object_at key n sha256 in
      Ensures-then (verify_object_evidence client digest key n sha256) _ s
        (λ _. HasEvidence client digest object_at key n sha256) Evidence
        (verify_object_evidence-HasEvidence key n sha256 s) (λ _ h. Ensures-pure false _ Evidence h)

  cheaply-HasEvidence :
      (codec : IsDigest digest) (b : Bool) (key : String) (n : ℕ) (sent : Bytes) (s : S)
      → Ensures (cheaply client digest b key n (hexdigest digest sent)) s (λ cheap after.
        cheap ≡ true → HasEvidence client digest object_at key n (hexdigest digest sent) after)
  cheaply-HasEvidence codec true key n sent s cheap e true_ =
      try_cheap_verify-HasEvidence codec key n sent s cheap e true_
  cheaply-HasEvidence codec false key n sent s cheap e true_ = absurd (ground (arith, e, true_))

  -- When the confirmation of a key returns, cheaply or after a download, what is stored under the key
  -- has the length and the digest of what was to be confirmed.
  pub confirm_durable-HasEvidence :
      (codec : IsDigest digest) (key : String) (n : ℕ) (sent : Bytes) (mode : String) (s : S)
      → Ensures
          (confirm_durable client digest key n (hexdigest digest sent) mode)
          s
          (λ _. HasEvidence client digest object_at key n (hexdigest digest sent))
  unfolding confirm_durable
  confirm_durable-HasEvidence codec key n sent mode s =
      let Evidence =
        λ (b : Bool). HasEvidence client digest object_at key n (hexdigest digest sent) in
      let Cheap = λ (cheap : Bool) (after : S). cheap ≡ true → Evidence true after in
      Ensures-then
        (cheaply client digest (not (mode == "full_download")) key n (hexdigest digest sent)) _ s
        Cheap Evidence (cheaply-HasEvidence codec (not (mode == "full_download")) key n sent s)
        (λ cheap h. verify_unless-HasEvidence cheap key n (hexdigest digest sent) _ h)
