-- ===== src/Slashing/Documents.antt =====
-- The document that Format makes.
use eth2_validator.Base.{
  ◌≡◌, ◌≢◌, ◌↔◌, refl, sym, ap, ◌∙◌, inl, inr, true, ◌||◌, List, [], ◌∷◌, map, String, Option, none,
  some, ok, bind-ok, Returns, returns, Returns-bind, Returns-inv, Returns-at, ◌==◌, string_eq,
  beq_self,
}
use eth2_validator.Base.Try.{IsEntryOf}
use eth2_validator.Duty.{Bytes, Duty, Result, BlockProposalResult, AttestationResult, HaveJobs}
use eth2_validator.Slashing.{
  AccountDuties, AccountDocument, BlockDocument, AttestationDocument, by_account, sort, each,
  Encoding, block_document, attestation_document, account_document, format,
}
use eth2_validator.Slashing.Each.{each-AreResults, each-entry}
use eth2_validator.Slashing.Grouped.{
  is_proposal, is_attestation, proposes, attests, signs, pick, any, account_of,
  by_account-IsGrouped,
}
use eth2_validator.Slashing.Keys.{
  keys, keys-signed, sorted_accounts, pick-entry, if_true, and_true, or_cases, signs-own, any-entry,
}

-- A proposal has the result of a proposal, and an attestation that of an attestation.
pub record IsComplete (d : Duty) : Type 0 where
  pub block :
      is_proposal d.job ≡ true
      → (r : Result) × (b : BlockProposalResult) × (d.result ≡ some r) × (r.block_proposal ≡ some b)
  pub vote :
      is_attestation d.job ≡ true
      → (r : Result) × (a : AttestationResult) × (d.result ≡ some r) × (r.attestation ≡ some a)

module _ (enc : Encoding) where
  block_document-ok :
      (d : Duty)
      → IsComplete d
      → is_proposal d.job ≡ true
      → (y : BlockDocument) × (block_document enc d ≡ ok y)
  unfolding block_document
  block_document-ok d c e =
      let (r, b, f, h) = c.block e in
      (record { slot = d.slot; signing_root = enc.hex b.root }, rw (f, h) refl)

  attestation_document-ok :
      (d : Duty)
      → IsComplete d
      → is_attestation d.job ≡ true
      → (y : AttestationDocument) × (attestation_document enc d ≡ ok y)
  unfolding attestation_document
  attestation_document-ok d c e =
      let (r, a, f, h) = c.vote e in
      (
        record {
          source_epoch = a.source.epoch;
          target_epoch = a.target.epoch;
          signing_root = enc.hex a.root;
        },
        rw (f, h) refl,
      )

  account_document-ok :
      (l : List Duty) (k : String)
      → ((d : Duty) → IsEntryOf d l → IsComplete d)
      → (y : AccountDocument) × (account_document enc (account_of l k) ≡ ok y)
  unfolding account_document
  account_document-ok l k c = let (y, made, _) = Returns-inv made_of in (y, made)
    where
      made_of : Returns (λ y. Unit {0}) (account_document enc (account_of l k))
      made_of =
          Returns-bind
            (each-AreResults (block_document enc) (pick (proposes k) l) λ d i.
              let (j, e) = (pick-entry (proposes k) l d).0 i in
              block_document-ok d (c d j) (if_true (is_proposal d.job) (d.pub_key == k) e))
            λ blocks _.
              Returns-bind
                (each-AreResults (attestation_document enc) (pick (attests k) l) λ d i.
                  let (j, e) = (pick-entry (attests k) l d).0 i in
                  attestation_document-ok d (c d j)
                    (if_true (is_attestation d.job) (d.pub_key == k) e))
                λ votes _. returns tt

  -- The accounts of the document: one for each key for which a duty is signed.
  abbrev pub AreAccounts : List Duty → List AccountDocument → Type 0
  AreAccounts l accounts =
      (y : AccountDocument)
      → IsEntryOf y accounts
        ↔ (k : String) × (any (signs k) l ≡ true) × (account_document enc (account_of l k) ≡ ok y)

  map-entry :
      (l : List Duty) (ks : List String) (w : AccountDuties)
      → IsEntryOf w (map (account_of l) ks) ↔ (k : String) × IsEntryOf k ks × (w ≡ account_of l k)
  map-entry l [] w = (λ i. absurd i, λ (k, i, e). absurd i)
  map-entry l (j ∷ ks) w =
      let (to, from) = map-entry l ks w in
      (
        λ i. elim i [ inl e ↦ (j, inl refl, e) | inr h ↦ let (k, at, e) = to h in (k, inr at, e) ],
        λ (k, i, e). elim i [
          | inl same ↦ inl (e ∙ ap (account_of l) same)
          | inr at ↦ inr (from (k, at, e))
        ],
      )

  abbrev pub document_of : Bytes → List AccountDocument → Option Bytes
  document_of root accounts = enc.marshal (record {
    metadata = record { format_version = "5"; genesis_validators_root = enc.hex root };
    accounts = accounts;
  })

  -- Where every duty has a job, and every proposal and attestation has its result, Format returns
  -- what json.Marshal makes of the genesis root and of the accounts. There is an account just for the keys
  -- for which a proposal or an attestation is in the list, with the documents of those for the key,
  -- in their order.
  pub format_correct :
      (root : Bytes) (l : List Duty)
      → HaveJobs l
      → ((d : Duty) → IsEntryOf d l → IsComplete d)
      → Returns
          (λ o.
            (accounts : List AccountDocument) × (o ≡ document_of root accounts)
            × AreAccounts l accounts)
          (format enc (record { genesis_validator_root = root; duties = l }))
  unfolding format
  format_correct root l h c = Returns-bind (by_account-IsGrouped l h) λ m g.
      let ks = sort (keys m) in
      rw (sorted_accounts l m g) (
        Returns-bind
          (each-AreResults (account_document enc) (map (account_of l) ks) λ w i.
            let (k, _, same) = (map-entry l ks w).0 i in
            let (y, made) = account_document-ok l k c in (y, ap (account_document enc) same ∙ made))
          λ accounts (_, at). returns (
            accounts,
            refl,
            λ y. (
              λ i.
                  let (w, j, made) = (at y).0 i in
                  let (k, listed, same) = (map-entry l ks w).0 j in
                  (k, (keys-signed l m g k).0 listed, ap (account_document enc) (sym same) ∙ made),
              λ (k, signed, made). (at y).1 (
                account_of l k,
                (map-entry l ks (account_of l k)).1 (k, (keys-signed l m g k).1 signed, refl),
                made,
              ),
            ),
          ))

  block_document-none :
      (d : Duty) (y : BlockDocument) → d.result ≡ none → block_document enc d ≢ ok y
  unfolding block_document
  block_document-none d y e f = cc (rw e at f)

  attestation_document-none :
      (d : Duty) (y : AttestationDocument) → d.result ≡ none → attestation_document enc d ≢ ok y
  unfolding attestation_document
  attestation_document-none d y e f = cc (rw e at f)

  account_document-pending :
      (l : List Duty) (d : Duty) (y : AccountDocument)
      → IsEntryOf d l
      → (is_proposal d.job || is_attestation d.job) ≡ true
      → d.result ≡ none
      → account_document enc (account_of l d.pub_key) ≢ ok y
  unfolding account_document
  account_document-pending l d y i kind missing e =
      let (blocks, bs, e1) = bind-ok (each (block_document enc) _) _ y e in
      let (votes, vs, e2) = bind-ok (each (attestation_document enc) _) _ y e1 in
      elim (or_cases (is_proposal d.job) (is_attestation d.job) kind) [
        | inl p ↦
            let (b, at) =
              each-entry (block_document enc) (pick (proposes d.pub_key) l) blocks d bs (
                (pick-entry (proposes d.pub_key) l d).1 (
                  i,
                  and_true (is_proposal d.job) (d.pub_key == d.pub_key) p (beq_self d.pub_key),
                )) in
            block_document-none d b missing at
        | inr p ↦
            let (a, at) =
              each-entry (attestation_document enc) (pick (attests d.pub_key) l) votes d vs (
                (pick-entry (attests d.pub_key) l d).1 (
                  i,
                  and_true (is_attestation d.job) (d.pub_key == d.pub_key) p (beq_self d.pub_key),
                )) in
            attestation_document-none d a missing at
      ]

  -- Where every duty has a job, and a proposal or an attestation of the list has no result yet,
  -- Format never returns.
  pub format-pending :
      (root : Bytes) (l : List Duty) (d : Duty) (o : Option Bytes)
      → HaveJobs l
      → IsEntryOf d l
      → (is_proposal d.job || is_attestation d.job) ≡ true
      → d.result ≡ none
      → format enc (record { genesis_validator_root = root; duties = l }) ≢ ok o
  unfolding format
  format-pending root l d o h i kind missing e =
      let (m, grouped, e1) = bind-ok (by_account l []) _ o e in
      let g = Returns-at m (by_account-IsGrouped l h) grouped in
      let (accounts, run, _) = bind-ok _ _ o (rw (sorted_accounts l m g) at e1) in
      let signed : signs d.pub_key d ≡ true = signs-own d kind in
      let listed = (keys-signed l m g d.pub_key).1 (any-entry (signs d.pub_key) l d i signed) in
      let (y, made) =
        each-entry (account_document enc) (map (account_of l) (sort (keys m))) accounts
          (account_of l d.pub_key) run
          ((map-entry l (sort (keys m)) (account_of l d.pub_key)).1 (d.pub_key, listed, refl)) in
      account_document-pending l d y i kind missing made
