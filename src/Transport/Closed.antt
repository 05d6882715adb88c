-- ===== src/Transport/Closed.antt =====
-- How an upload in parts of reporting_transport/storage.py ends.
use reporting_platform_local.Common.{
  Bool, true, false, Option, List, length, String, Result, ok, err, ◌==◌, nat_eq, ◌≡◌, refl, subst,
  arith, ◌⊎◌, inl, inr, Result-cases,
}
use reporting_platform_local.Transport.Paths.{TransportError, contract_error}
use reporting_platform_local.Transport.Actions.{
  Action, on_failure, refuse_if, ◌>>◌, ends_bind, ends_on_failure, ends_try,
}
use reporting_platform_local.Transport.Client.{
  Bytes, PutAnswer, precondition_failed, stored, Part, Receipt, Client, Digest, chunks,
}
use reporting_platform_local.Transport.Stored.{KeepsReads}
use reporting_platform_local.Transport.Kept.{after_complete-Keeps}
use reporting_platform_local.Transport.Tuning.{UploadTuning}
use reporting_platform_local.Transport.Uploading.{
  wants_checksum, parts_of, upload_parts, abort_multipart, after_complete, upload_as,
  upload_multipart,
}

-- The client's promises of one upload, for a predicate of the states in which its parts are gone: an
-- abort that does not raise closes it, a completion that stores the object closes it, and no read
-- opens it again.
pub record IsClosing {S : Type 0} (client : Client S) (upload_id : String) (IsClosed : S → Type 0)
    : Type 0 where
  pub reads_keep : KeepsReads client IsClosed
  pub abort_closes :
      (key : String) (s : S) (done : Unit {0})
      → (client.abort_multipart_upload key upload_id s).0 ≡ ok done
      → IsClosed (client.abort_multipart_upload key upload_id s).1
  pub complete_closes :
      (key : String) (parts : List Part) (s : S) (returned : Option String)
      → (client.complete_multipart_upload key upload_id parts s).0 ≡ ok (stored returned)
      → IsClosed (client.complete_multipart_upload key upload_id parts s).1

-- What holds of the states that a call keeps, or in any case, is kept by the reads.
either-KeepsReads :
    {S : Type 0} (client : Client S) (P : S → Type 0) (C : Type 0)
    → KeepsReads client P
    → KeepsReads client (λ s. P s ⊎ C)
either-KeepsReads {S} client P C keep = record {
  head_keeps =
      λ want key s h. elim h [ inl p ↦ inl (keep.head_keeps want key s p) | inr c ↦ inr c ];
  get_keeps = λ key s h. elim h [ inl p ↦ inl (keep.get_keeps key s p) | inr c ↦ inr c ];
}

module _ {S : Type 0} (client : Client S) (digest : Digest) (upload : UploadTuning)
    (upload_id key : String) where
  -- The abort of the upload raises from a state.
  abbrev pub IsStuck : S → Type 0
  IsStuck s =
      (fault : TransportError) × ((client.abort_multipart_upload key upload_id s).0 ≡ err fault)

  -- A call has raised, and the abort after it has raised as well.
  abbrev pub Unaborted : {A : Type 0} → Result TransportError A × S → Type 0
  Unaborted p = (fault : TransportError) × (p.0 ≡ err fault) × IsStuck p.1

  abbrev pub complete : List Receipt → Action S PutAnswer
  complete receipts =
      client.complete_multipart_upload key upload_id (parts_of (wants_checksum upload) 1 receipts)

  -- The ways in which the upload of some parts stays open: a part, the answer of no part, or the
  -- completion fails and so does the abort after it, or the completion finds that the object is there
  abbrev pub Leaks : List Bytes → S → Type 0
  Leaks parts s =
      let sent = upload_parts client digest upload key upload_id 1 parts s in
      Unaborted sent
      ⊎ ((receipts : List Receipt) × (sent.0 ≡ ok receipts)
          × ((((length receipts == 0) ≡ true) × IsStuck sent.1)
              ⊎ (Unaborted (complete receipts sent.1)
                  ⊎ ((complete receipts sent.1).0 ≡ ok precondition_failed))))

  module _ (IsClosed : S → Type 0) (closing : IsClosing client upload_id IsClosed) where
    aborted :
        (C : Type 0) (s : S)
        → (IsStuck s → C)
        → IsClosed (abort_multipart client digest upload key upload_id s) ⊎ C
    aborted C s stuck = elim (Result-cases (client.abort_multipart_upload key upload_id s).0) [
      | inl (done, e) ↦ inl (closing.abort_closes key s done e)
      | inr (fault, e) ↦ inr (stuck (fault, e))
    ]

    completed :
        (C : Type 0) (receipts : List Receipt) (s : S)
        → (Unaborted (complete receipts s) → C)
        → ((complete receipts s).0 ≡ ok precondition_failed → C)
        → (answer : PutAnswer) → (complete receipts s).0 ≡ ok answer
        → IsClosed (complete receipts s).1 ⊎ C
    completed C receipts s stuck lost precondition_failed e = inr (lost e)
    completed C receipts s stuck lost (stored returned) e =
        inl (closing.complete_closes key (parts_of (wants_checksum upload) 1 receipts) s returned e)

    -- From the receipts on
    completion-ends :
        (C : Type 0) (receipts : List Receipt) (s : S) (none_sent : Bool)
        → (none_sent ≡ true → IsStuck s → C)
        → (Unaborted (complete receipts s) → C)
        → ((complete receipts s).0 ≡ ok precondition_failed → C)
        → IsClosed
            ((on_failure
                  (refuse_if none_sent contract_error)
                  (abort_multipart client digest upload key upload_id)
                >> on_failure
                    (complete receipts)
                    (abort_multipart client digest upload key upload_id))
              s).1
          ⊎ C
    completion-ends C receipts s true stuck failed lost = aborted C s (stuck refl)
    completion-ends C receipts s false stuck failed lost =
        ends_on_failure (complete receipts) (abort_multipart client digest upload key upload_id) s
          (λ t. IsClosed t ⊎ C)
          (λ fault e. aborted C (complete receipts s).1 (λ raised. failed (fault, e, raised)))
          (completed C receipts s failed lost)

    upload_as-ends :
        (body : Bytes) (parts : List Bytes) (s : S)
        → IsClosed (upload_as client digest upload key body parts upload_id s).1 ⊎ Leaks parts s
    upload_as-ends body parts s =
        let abort = abort_multipart client digest upload key upload_id in
        let sent = upload_parts client digest upload key upload_id 1 parts in
        let C = Leaks parts s in
        let P : S → Type 0 = λ t. IsClosed t ⊎ C in
        ends_try sent abort _ s P
          (λ fault e. aborted C (sent s).1 (λ raised. inl (fault, e, raised)))
          (λ receipts e.
            let none_sent = length receipts == 0 in
            let whole =
              on_failure (refuse_if none_sent contract_error) abort
              >> on_failure (complete receipts) abort in
            let over =
              completion-ends C receipts (sent s).1 none_sent
                (λ none raised. inr (receipts, e, inl (none, raised)))
                (λ failed. inr (receipts, e, inr (inl failed)))
                (λ lost. inr (receipts, e, inr (inr lost))) in
            ends_bind whole (after_complete client digest upload key body parts receipts) (sent s).1
              P (λ _ _. over)
              (λ answer _.
                after_complete-Keeps client digest P
                  (either-KeepsReads client IsClosed C closing.reads_keep) upload key body parts
                  receipts answer _ over))

    -- For a client whose aborts, where they do not raise, and completions that store the object close
    -- the upload, which no read opens again: an upload in parts that has begun is closed when
    -- `_upload_multipart` ends, whether it returns or raises, but in two cases. What ended it (a
    -- part, the answer of no part, or the completion) was followed by an abort that raised itself; or
    -- the completion found that the object was there already.
    pub upload_multipart-IsClosed :
        (body : Bytes) (s : S)
        → (client.create_multipart_upload (wants_checksum upload) key s).0 ≡ ok upload_id
        → IsClosed (upload_multipart client digest upload key body s).1
          ⊎ Leaks
              (chunks (length body) upload.multipart_part_size body)
              (client.create_multipart_upload (wants_checksum upload) key s).1
    unfolding upload_multipart
    upload_multipart-IsClosed body s begun =
        let create = client.create_multipart_upload (wants_checksum upload) key in
        let parts = chunks (length body) upload.multipart_part_size body in
        let P : S → Type 0 = λ t. IsClosed t ⊎ Leaks parts (create s).1 in
        ends_bind create (upload_as client digest upload key body parts) s P
          (λ fault e. absurd (ground (arith, begun, e)))
          (λ a e.
            let same : upload_id ≡ a = ground (arith, begun, e) in
            subst (λ a. P (upload_as client digest upload key body parts a (create s).1).1) same
              (upload_as-ends body parts (create s).1))
