-- ===== src/Ledger/Checkpointer/Kept/Growth.antt =====
-- A run of the checkpointer covers the whole ledger (merkle_checkpoint.go).
use mathlib.Core.Path.{subst}
use vigia.Prelude.{
  ℕ, suc, ◌+◌, ◌≤◌, ◌≡◌, refl, sym, ap, ◌∙◌, inl, inr, ◌⊎◌, Bool, true, false, List, [], ◌∷◌, ◌++◌,
  some, All, arith, length, length-append, ltb, ◌==◌,
}
use vigia.Ledger.Encoding.{Text}
use vigia.Ledger.Digest.{Bytes, Sha256}
use vigia.Ledger.Record.{EvidenceRecord}
use vigia.Ledger.Chain.{text_equal_iff, Text_comparable}
use vigia.Ledger.Checkpoint.{
  MerkleCheckpoint, build_merkle_checkpoint, canonical_bytes, verify_timestamp_digest,
}
use vigia.Ledger.Checkpointer.{
  CheckpointRow, CheckpointerError, LedgerTables, MerkleCheckpointer, Client, Token, Outcome,
  insert_row, row_of, latest, last_seq_of, ◌>>◌, ◌>>=◌, not_empty, load_checkpoint_records,
  create_checkpoint, create_merkle_checkpoint, verifier_of,
}
use vigia.Ledger.Checkpointer.Ranges.{Counts, LinkedFrom, end_hash, IsIntact-Counts}
use vigia.Ledger.Checkpointer.Builds.{linked-builds, build-utc_micros}
use vigia.Ledger.Checkpointer.Kept.{
  IsRowOf, Covers, IsCheckpointed, row-LiesAt, checkpointed-verify,
}
use vigia.Ledger.Checkpointer.Kept.Progress.{
  Reaches, Covers-Reaches, fresh-Counts, fresh-LinkedFrom, load-fresh,
}

module _ (sha : Sha256) (verify : Bytes → Bytes → Bool) where
  -- A timestamp authority that answers, with tokens that its verifier accepts.
  pub record IsAuthority (client : Client) : Type 0 where
    pub verifies : client.verifier ≡ some verify
    pub answers :
        (payload : Bytes)
        → (token : Token) × (client.timestamp payload ≡ some token)
          × (token.hashed_message ≡ sha.digest payload)
          × (verify token.raw_token (sha.digest payload) ≡ true)

  insert_row-append :
      (n : ℕ) (row : CheckpointRow) (rows : List CheckpointRow)
      → All (λ (c : CheckpointRow). suc c.last_seq ≤ n) rows
      → n ≤ suc row.last_seq
      → insert_row row rows ≡ rows ++ row ∷ []
  insert_row-append n row [] h l = refl
  insert_row-append n row (c ∷ rows) h l =
      let later : ltb row.last_seq c.last_seq ≡ false = ground (arith, h.0) in
      rw (later, insert_row-append n row rows h.1 l)

  latest-append :
      (rows : List CheckpointRow) (row : CheckpointRow) → latest (rows ++ row ∷ []) ≡ some row
  latest-append [] row = refl
  latest-append (c ∷ []) row = refl
  latest-append (c ∷ d ∷ rows) row = latest-append (d ∷ rows) row

  -- What the checkpointer makes of fresh records.
  record Creates (m : MerkleCheckpointer) (t : LedgerTables) (range : List EvidenceRecord)
      : Type 0 where
    row : CheckpointRow
    created :
        create_checkpoint sha m t
        ≡ Outcome.done (row, record t { checkpoints = insert_row row t.checkpoints })
    is_row : IsRowOf sha verify range row

  digest-verifies :
      (c : MerkleCheckpoint) (message : Bytes)
      → message ≡ sha.digest (canonical_bytes c)
      → verify_timestamp_digest sha c message ≡ true
  unfolding verify_timestamp_digest
  digest-verifies c message h = (text_equal_iff _ _).1 h

  create-done :
      (m : MerkleCheckpointer) (t : LedgerTables) (client : Client) (range : List EvidenceRecord)
      (c : MerkleCheckpoint) (token : Token)
      → m.client ≡ some client
      → (m.tsa_url == []) ≡ false
      → load_checkpoint_records sha m t ≡ Outcome.done range
      → build_merkle_checkpoint sha range m.now ≡ some (inr c)
      → client.timestamp (canonical_bytes c) ≡ some token
      → token.hashed_message ≡ sha.digest (canonical_bytes c)
      → create_checkpoint sha m t
        ≡ Outcome.done (
          row_of m c token,
          record t { checkpoints = insert_row (row_of m c token) t.checkpoints },
        )
  unfolding create_checkpoint
  create-done m t client range c token has url load builds answered message =
      simp (has, url, load, builds, answered, digest-verifies c token.hashed_message message)

  create-Creates :
      (m : MerkleCheckpointer) (t : LedgerTables) (client : Client) (k : ℕ) (p : Text)
      (first : EvidenceRecord) (rest : List EvidenceRecord)
      → m.client ≡ some client
      → IsAuthority client
      → (m.tsa_url == []) ≡ false
      → load_checkpoint_records sha m t ≡ Outcome.done (first ∷ rest)
      → Counts k (first ∷ rest)
      → LinkedFrom sha p (first ∷ rest)
      → Creates m t (first ∷ rest)
  create-Creates m t client k p first rest has authority url load counts linked =
      let (c, builds, built) = linked-builds sha k p first rest m.now counts linked in
      let (token, answered, message, accepted) = authority.answers (canonical_bytes c) in
      record {
        row = row_of m c token;
        created =
            create-done m t client (first ∷ rest) c token has url load builds answered message;
        is_row = record {
          checkpoint = c;
          built =
              ap (λ (x : MerkleCheckpoint). build_merkle_checkpoint sha (first ∷ rest) x.created_at)
                built.built
              ∙ build-utc_micros sha (first ∷ rest) m.now
              ∙ builds;
          first_seq = refl;
          last_seq = refl;
          root_hash = refl;
          chain_head_hash = refl;
          checkpoint_body = refl;
          token = accepted;
        };
      }

  -- The result of a run that has covered everything: nothing was left, or a checkpoint was added.
  abbrev pub CoversAll : LedgerTables → Outcome LedgerTables → Type 0
  CoversAll t o =
      ((o ≡ Outcome.failed CheckpointerError.no_new_records)
        × (last_seq_of (latest t.checkpoints) ≡ length t.records))
      ⊎ ((after : LedgerTables) × (o ≡ Outcome.done after)
          × (after.records ≡ t.records)
          × IsCheckpointed sha verify after
          × (last_seq_of (latest after.checkpoints) ≡ length t.records))

  module _ (m : MerkleCheckpointer) (t : LedgerTables) (client : Client)
      (has : m.client ≡ some client) (authority : IsAuthority client) (known : m.tenant ≡ true)
      (url : (m.tsa_url == []) ≡ false) (kept : IsCheckpointed sha verify t)
      (counts : Counts 1 t.records) (linked : LinkedFrom sha [] t.records)
      (reach : Reaches sha verify 1 [] t.records t.checkpoints (latest t.checkpoints)) where
    total : length t.records ≡ length reach.covered + length reach.fresh
    total = ap (λ xs. length xs) reach.parts ∙ length-append reach.covered reach.fresh

    nothing-fresh :
        load_checkpoint_records sha m t ≡ Outcome.failed CheckpointerError.no_new_records
        → create_checkpoint sha m t ≡ Outcome.failed CheckpointerError.no_new_records
    unfolding create_checkpoint
    nothing-fresh load = simp (has, url, load)

    added :
        (first : EvidenceRecord) (rest : List EvidenceRecord)
        → reach.fresh ≡ first ∷ rest
        → CoversAll t (create_checkpoint sha m t >>= λ created. Outcome.done created.1)
    added first rest e =
        let n = length reach.covered + 1 in
        let range_counts =
          subst (Counts n) e (fresh-Counts sha verify m t known counts linked reach) in
        let range_linked =
          subst (LinkedFrom sha (end_hash sha [] reach.covered)) e
            (fresh-LinkedFrom sha verify m t known counts linked reach) in
        let load =
          load-fresh sha verify m t known counts linked reach
          ∙ ap (λ xs. not_empty xs >> Outcome.done xs) e in
        let new =
          create-Creates m t client n _ first rest has authority url load range_counts
            range_linked in
        let lies =
          row-LiesAt sha verify n _ first rest new.row range_counts range_linked new.is_row in
        let rows =
          insert_row-append n new.row t.checkpoints reach.below (omega (arith, lies.ends)) in
        let size = ap (λ xs. length xs) e in
        inr (
          record t { checkpoints = insert_row new.row t.checkpoints },
          ap (λ o. o >>= λ created. Outcome.done created.1) new.created,
          refl,
          record {
            intact = kept.intact;
            covered =
                subst (Covers sha verify t.records) (sym rows)
                  (reach.extends first rest new.row e new.is_row);
          },
          ap (λ cs. last_seq_of (latest cs)) rows
              ∙ ap last_seq_of (latest-append t.checkpoints new.row)
              ∙ omega (arith, lies.ends, total, size),
        )

    after-create :
        (fresh : List EvidenceRecord)
        → reach.fresh ≡ fresh
        → CoversAll t (create_checkpoint sha m t >>= λ created. Outcome.done created.1)
    after-create [] e =
        let load =
          load-fresh sha verify m t known counts linked reach
          ∙ ap (λ xs. not_empty xs >> Outcome.done xs) e in
        let size = ap (λ xs. length xs) e in
        inl (
          ap (λ o. o >>= λ created. Outcome.done created.1) (nothing-fresh load),
          omega (arith, reach.ends, total, size),
        )
    after-create (first ∷ rest) e = added first rest e

verifier_is :
    {sha : Sha256} {verify : Bytes → Bytes → Bool} (m : MerkleCheckpointer) (client : Client)
    → m.client ≡ some client
    → IsAuthority sha verify client
    → verifier_of m.client ≡ Outcome.done verify
verifier_is m client has authority = simp (has, authority.verifies)

-- With a timestamp authority that answers, a configured URL for it and a tenant id that parses, a run of the checkpointer on a checkpointed ledger never fails
-- but for want of new records: the checkpoints then reach its last record, or the run adds one that does,
-- leaves the records as they were, and the ledger is checkpointed again.
pub create_merkle_checkpoint-CoversAll :
    (sha : Sha256) (verify : Bytes → Bytes → Bool) (m : MerkleCheckpointer) (t : LedgerTables)
    (client : Client)
    → m.client ≡ some client
    → IsAuthority sha verify client
    → m.tenant ≡ true
    → (m.tsa_url == []) ≡ false
    → IsCheckpointed sha verify t
    → CoversAll sha verify t (create_merkle_checkpoint sha m t)
unfolding create_merkle_checkpoint
create_merkle_checkpoint-CoversAll sha verify m t client has authority known url kept =
    let (counts, linked) = IsIntact-Counts sha t.records kept.intact in
    let reach = Covers-Reaches sha verify t.records t.checkpoints counts linked kept.covered in
    let verifier = verifier_is m client has authority in
    let verified = checkpointed-verify sha verify m verifier t known kept in
    subst (CoversAll sha verify t)
      (sym
        (ap (λ o. o >> (create_checkpoint sha m t >>= λ created. Outcome.done created.1)) verified))
      (after-create sha verify m t client has authority known url kept counts linked reach
        reach.fresh refl)
