-- ===== src/Complaints/Creation.antt =====
-- What the creation of a case leaves behind (complaint_store.go, `CreateComplaintCase`).
use mathlib.Core.Path.{subst}
use vigia.Prelude.{
  ◌+◌, ◌≡◌, refl, sym, ap, ◌∙◌, Bool, true, List, [], ◌∷◌, ◌++◌, Option, none, some, some_injective,
  arith, reached,
}
use vigia.Ledger.Encoding.{Text}
use vigia.Ledger.Digest.{Sha256}
use vigia.Ledger.Record.{hash_of}
use vigia.Ledger.Chain.{text_equal_iff, Text_comparable}
use vigia.Complaints.Tables.{CaseRow, Tables, select_one, locked_head}
use vigia.Complaints.Store.{Session}
use vigia.Complaints.Head.{IsLedger, appended-IsLedger, same-IsLedger}
use vigia.Complaints.Cases.{
  CreateComplaintCaseInput, Creation, has_key, new_case, opening_body, matches_input,
  append_opening, opened, create_on, create_with, create_complaint_case,
}

abbrev pub tables_after_creation : Tables → Creation → Tables
tables_after_creation t (Creation.created c t') = t'
tables_after_creation t _ = t

module _ (sha : Sha256) (e : Session) where
  append_opening-IsLedger :
      (tenant : Text) (c : CaseRow) (t t' : Tables)
      → IsLedger sha t
      → append_opening sha e tenant c t ≡ some t'
      → IsLedger sha t'
  unfolding append_opening
  append_opening-IsLedger tenant c t t' i h =
      let head = locked_head t.head in
      let body = opening_body tenant c (head.last_seq + 1) in
      let (id, _, h1) = reached (e.parse_uuid c.id) none _ (some t') h (ground arith) in
      let (hash, hashed, h2) =
        reached (hash_of sha head.last_hash body) none _ (some t') h1 (ground arith) in
      same-IsLedger sha h2 (appended-IsLedger sha t e.new_id hash body i refl hashed)

  append_opening-cases :
      (tenant : Text) (c : CaseRow) (t t' : Tables)
      → append_opening sha e tenant c t ≡ some t'
      → t'.cases ≡ t.cases
  unfolding append_opening
  append_opening-cases tenant c t t' h =
      let head = locked_head t.head in
      let body = opening_body tenant c (head.last_seq + 1) in
      let (id, _, h1) = reached (e.parse_uuid c.id) none _ (some t') h (ground arith) in
      let (hash, _, h2) =
        reached (hash_of sha head.last_hash body) none _ (some t') h1 (ground arith) in
      sym (ap (λ (u : Tables). u.cases) (some_injective _ _ h2))

  opened-created :
      (c : CaseRow) (o : Option Tables) (c' : CaseRow) (t' : Tables)
      → opened sha e c o ≡ Creation.created c' t'
      → (o ≡ some t') × (c ≡ c')
  opened-created c none c' t' h = absurd (ground arith)
  opened-created c (some t) c' t' h = (cc, cc)

  -- What a case that was created looks like.
  pub record IsOpened (input : CreateComplaintCaseInput) (t : Tables) (c : CaseRow) (t' : Tables)
      : Type 0 where
    pub interaction : Text
    pub parsed : e.parse_uuid input.interaction_id ≡ some interaction
    pub new : Text
    pub case_row : c ≡ new_case new interaction input
    pub fresh : select_one (has_key input.idempotency_key) t.cases ≡ none
    pub cases : t'.cases ≡ t.cases ++ c ∷ []
    pub kept : IsLedger sha t → IsLedger sha t'

  created-IsOpened :
      (new tenant interaction : Text) (input : CreateComplaintCaseInput) (t : Tables) (c : CaseRow)
      (t' : Tables) (o : Option CaseRow)
      → e.parse_uuid input.interaction_id ≡ some interaction
      → select_one (has_key input.idempotency_key) t.cases ≡ o
      → create_on sha e new tenant interaction input t o ≡ Creation.created c t'
      → IsOpened input t c t'
  unfolding create_on
  created-IsOpened new tenant interaction input t c t' (some existing) parsed k h =
      absurd (ground arith)
  created-IsOpened new tenant interaction input t c t' none parsed k h =
      let row = new_case new interaction input in
      let added = record t { cases = t.cases ++ row ∷ [] } in
      let (appended, same) = opened-created row (append_opening sha e tenant row added) c t' h in
      record {
        interaction = interaction;
        parsed = parsed;
        new = new;
        case_row = sym same;
        fresh = k;
        cases =
            append_opening-cases tenant row added t' appended ∙ ap (λ x. t.cases ++ x ∷ []) same;
        kept = λ i.
            append_opening-IsLedger tenant row added t'
              (record { intact = i.intact; at_head = i.at_head }) appended;
      }

  select_one-append :
      (p : CaseRow → Bool) (xs : List CaseRow) (c : CaseRow)
      → select_one p xs ≡ none
      → p c ≡ true
      → select_one p (xs ++ c ∷ []) ≡ some c
  select_one-append p [] c n h = rw h
  select_one-append p (x ∷ xs) c n h = ground (arith, select_one-append p xs c (ground arith) h)

  new-matches :
      (new interaction : Text) (input : CreateComplaintCaseInput)
      → matches_input interaction input (new_case new interaction input) ≡ true
  new-matches new interaction input = rw (
    (text_equal_iff interaction interaction).1 refl,
    (text_equal_iff input.redeco_cause input.redeco_cause).1 refl,
  )

  found-again :
      (new tenant interaction : Text) (input : CreateComplaintCaseInput) (t : Tables)
      (o : Option CaseRow) (c : CaseRow)
      → o ≡ some c
      → matches_input interaction input c ≡ true
      → create_on sha e new tenant interaction input t o ≡ Creation.found c
  unfolding create_on
  found-again new tenant interaction input t none c h m = absurd (cc)
  found-again new tenant interaction input t (some existing) c h m =
      let same = some_injective _ _ h in rw (same, m)

  create-parsed :
      (new tenant interaction : Text) (input : CreateComplaintCaseInput) (t : Tables)
      → e.parse_uuid input.tenant_id ≡ some tenant
      → e.parse_uuid input.interaction_id ≡ some interaction
      → create_complaint_case sha e new input t ≡ create_with sha e new tenant interaction input t
  unfolding create_complaint_case
  create-parsed new tenant interaction input t known parsed =
      rw (known, parsed, create_complaint_case)

  -- A case that was created is found by a second request with the same input, whatever id is generated
  -- for that, and the tables are not changed by it; a ledger that was intact with its head at the last
  -- record is so behind the creation.
  pub create_complaint_case-retried :
      (new again : Text) (input : CreateComplaintCaseInput) (t t' : Tables) (c : CaseRow)
      → create_complaint_case sha e new input t ≡ Creation.created c t'
      → (create_complaint_case sha e again input t' ≡ Creation.found c)
        × (tables_after_creation t' (create_complaint_case sha e again input t') ≡ t')
        × (IsLedger sha t → IsLedger sha t')
  unfolding create_complaint_case
  create_complaint_case-retried new again input t t' c h =
      let (tenant, known, h1) =
        reached (e.parse_uuid input.tenant_id) Creation.failed _ (Creation.created c t') h
          (ground arith) in
      let (interaction, parsed, h2) =
        reached (e.parse_uuid input.interaction_id) Creation.failed _ (Creation.created c t') h1
          (ground arith) in
      let o = created-IsOpened new tenant interaction input t c t' _ parsed refl h2 in
      let keyed : has_key input.idempotency_key c ≡ true =
        rw o.case_row ((text_equal_iff _ _).1 refl) in
      let selected : select_one (has_key input.idempotency_key) t'.cases ≡ some c =
        rw o.cases (select_one-append (has_key input.idempotency_key) t.cases c o.fresh keyed) in
      let matches : matches_input o.interaction input c ≡ true =
        subst (λ x. matches_input o.interaction input x ≡ true) (sym o.case_row)
          (new-matches o.new o.interaction input) in
      let found : create_complaint_case sha e again input t' ≡ Creation.found c =
        create-parsed again tenant o.interaction input t' known o.parsed
        ∙ (found-again again tenant o.interaction input t' _ c selected matches) in
      (found, ap (tables_after_creation t') found, o.kept)
