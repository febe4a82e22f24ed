-- ===== src/Complaints/Head.antt =====
-- The head of the chain of evidence, and the chain when a record is appended.
use vigia.Prelude.{◌+◌, ◌≡◌, refl, sym, ap, ◌∙◌, List, [], ◌∷◌, ◌++◌, some, arith}
use mathlib.Core.Option.{some_inj}
use vigia.Ledger.Encoding.{Text}
use vigia.Ledger.Digest.{Sha256}
use vigia.Ledger.Record.{Body, EvidenceRecord, canonical_of, hash_text, hash_of}
use vigia.Ledger.Chain.Intact.{IsHashed, IsIntact}
use vigia.Ledger.Chain.Binding.{last_of, Linked-append}
use vigia.Complaints.Tables.{ChainHead, Tables, locked_head}

-- The head that a chain's records call for
abbrev pub head_of : List EvidenceRecord → ChainHead
head_of [] = record { last_seq = 0; last_hash = [] }
head_of (r ∷ rs) = record { last_seq = (last_of r rs).body.seq; last_hash = (last_of r rs).hash }

last_of-append : (r c : EvidenceRecord) (rs : List EvidenceRecord) → last_of r (rs ++ c ∷ []) ≡ c
last_of-append r c [] = refl
last_of-append r c (x ∷ rs) = last_of-append x c rs

hash_of-hash_text :
    (sha : Sha256) (p h : Text) (b : Body)
    → hash_of sha p b ≡ some h
    → h ≡ hash_text sha p (canonical_of b)
unfolding hash_of
hash_of-hash_text sha p h b e = ground arith

module _ (sha : Sha256) where
  -- The records are an intact chain and the head is its last record's.
  pub record IsLedger (t : Tables) : Type 0 where
    pub intact : IsIntact sha t.records
    pub at_head : locked_head t.head ≡ head_of t.records

  append-IsIntact :
      (rs : List EvidenceRecord) (c : EvidenceRecord)
      → IsIntact sha rs
      → c.prev_hash ≡ (head_of rs).last_hash
      → c.body.seq ≡ (head_of rs).last_seq + 1
      → IsHashed sha c
      → IsIntact sha (rs ++ c ∷ [])
  append-IsIntact [] c i p s h = (p, s, h, tt)
  append-IsIntact (r ∷ rs) c (first, start, hashed, l) p s h = (
    first,
    start,
    hashed,
    Linked-append sha r c rs l (record { next_seq = s; linked = p; hashed = h }),
  )

  head_of-append :
      (rs : List EvidenceRecord) (c : EvidenceRecord)
      → head_of (rs ++ c ∷ []) ≡ record { last_seq = c.body.seq; last_hash = c.hash }
  head_of-append [] c = refl
  head_of-append (r ∷ rs) c =
      ap (λ (x : EvidenceRecord). record { last_seq = x.body.seq; last_hash = x.hash })
        (last_of-append r c rs)

  pub appended-IsLedger :
      (t : Tables) (id hash : Text) (b : Body)
      → IsLedger t
      → b.seq ≡ (locked_head t.head).last_seq + 1
      → hash_of sha (locked_head t.head).last_hash b ≡ some hash
      → IsLedger (record t {
        head = some (record { last_seq = b.seq; last_hash = hash });
        records =
            t.records
            ++ record { id = id; body = b; prev_hash = (locked_head t.head).last_hash; hash = hash }
              ∷ [];
      })
  appended-IsLedger t id hash b i s h = record {
    intact =
        append-IsIntact t.records _ i.intact (ap (λ (x : ChainHead). x.last_hash) i.at_head)
          (s ∙ ap (λ (x : ChainHead). x.last_seq + 1) i.at_head) (hash_of-hash_text sha _ hash b h);
    at_head = sym (head_of-append t.records _);
  }

  pub same-IsLedger : {t u : Tables} → some t ≡ some u → IsLedger t → IsLedger u
  same-IsLedger {t = t} {u = u} e i = rw (← some_inj.0 e) i
