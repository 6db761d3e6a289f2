-- ===== src/Tests/Exports.antt =====
-- The export of a proposal and an attestation of one account, with their results and without one.
use eth2_validator.Base.{
  ok, ◌≡◌, ◌≢◌, inl, inr, refl, sym, subst, List, [], ◌∷◌, some, none, Returns,
}
use eth2_validator.Base.Try.{IsEntryOf}
use eth2_validator.Duty.{Bytes, Duty, Result, block_proposal, attestation, new_duty}
use eth2_validator.Slashing.{AccountDocument, Encoding, format}
use eth2_validator.Slashing.Documents.{
  IsComplete, AreAccounts, document_of, format_correct, format-pending,
}

-- A document is one byte for each account.
abbrev encoding : Encoding
encoding = record { hex = λ bytes. "0x"; marshal = λ d. some (bytes_of d.accounts) }
  where
    bytes_of : List AccountDocument → Bytes
    bytes_of [] = []
    bytes_of (a ∷ l) = 1 ∷ bytes_of l

abbrev signed : Result
signed = record {
  block_proposal = some (record { root = []; signature = [] });
  attestation = some (record {
    root = [];
    source = record { root = []; epoch = 3 };
    target = record { root = []; epoch = 4 };
  });
  attestation_aggregate = none;
  sync_committee = none;
  sync_committee_aggregate = none;
}

abbrev proposal : Duty
proposal = record new_duty {
  id = "proposal";
  pub_key = "key";
  slot = 40;
  job = some block_proposal;
  result = some signed;
}

abbrev vote : Duty
vote = record proposal {
  id = "vote";
  job =
      some (
        attestation (record { committee_index = 3; committee_length = 9; committees_at_slot = 1 }));
}

complete : (d : Duty) → IsEntryOf d (proposal ∷ vote ∷ []) → IsComplete d
complete d (inl e) = subst IsComplete (sym e) (record {
  block = λ p. (signed, record { root = []; signature = [] }, refl, refl);
  vote = λ p. absurd (cc p);
})
complete d (inr (inl e)) = subst IsComplete (sym e) (record {
  block = λ p. absurd (cc p);
  vote = λ p. (
    signed,
    record {
      root = [];
      source = record { root = []; epoch = 3 };
      target = record { root = []; epoch = 4 };
    },
    refl,
    refl,
  );
})
complete d (inr (inr e)) = absurd e

format_correct_example :
    Returns
      (λ o.
        (accounts : List AccountDocument) × (o ≡ document_of encoding [] accounts)
        × AreAccounts encoding (proposal ∷ vote ∷ []) accounts)
      (format encoding (record { genesis_validator_root = []; duties = proposal ∷ vote ∷ [] }))
format_correct_example =
    format_correct encoding [] (proposal ∷ vote ∷ []) ((block_proposal, refl), ((_, refl), tt))
      complete

-- A vote that was not cast yet.
abbrev waiting : Duty
waiting = record vote { result = none }

format-pending_example :
    format encoding (record { genesis_validator_root = []; duties = proposal ∷ waiting ∷ [] })
    ≢ ok (some [])
format-pending_example =
    format-pending encoding [] (proposal ∷ waiting ∷ []) waiting (some [])
      ((block_proposal, refl), ((_, refl), tt)) (inr (inl refl)) refl refl
