-- ===== src/State/Store/Mirror.antt =====
-- The tables in memory are what the buckets on disk decode to, whatever was upserted, and a restart
-- reads them back.
use eth2_validator.Base.{
  ◌≡◌, ◌≢◌, ◌⊎◌, inl, inr, refl, ap, sym, ◌∙◌, List, [], ◌∷◌, String, Option, none, some, ◌==◌,
  string_eq, if◌then◌else◌, arith, Bool-cases, subst, beq_self, key_cases, Option-cases,
}
use eth2_validator.Base.Try.{
  Try, value, error, crash, IsEntryOf, All, bind-value, OnValue, OnValue-step, OnValue-map,
}
use eth2_validator.State.Memdb.{Index, Memdb, IsMemdb, Takes}
use eth2_validator.State.Bolt.{StateError, Bolt, IsBolt, Codec, IsCodec}
use eth2_validator.State.Store.{
  Stored, from_index, transact, db_put, db_get, upsert_loop, upsert, index_object,
}

module _ {T : Type 0} (db : Memdb T) (bolt : Bolt) (codec : Codec bolt.Value T) (id : T → String)
    (schema : List (Index T)) where
  -- What the bucket has under a key, decoded.
  abbrev pub Decodes : Option bolt.Value → Option T → Type 0
  Decodes none o = o ≡ none
  Decodes (some raw) o =
      (x : T) × (codec.unmarshal raw ≡ value x) × (o ≡ some x) × All (Takes x) schema

  -- Under every key the table has what the bucket decodes to.
  abbrev pub IsMirror : Stored db bolt codec id → Type 0
  IsMirror (t, b) = (k : String) → Decodes (bolt.get b k) (db.by_id t k)

  -- The object that the list leaves under a key which had `old`.
  abbrev pub latest : String → List T → Option T → Option T
  latest k [] old = old
  latest k (x ∷ l) old = latest k l (if id x == k then some x else old)

  -- What an upsert leaves, with its result: all of the list, or nothing of it.
  pub record IsUpserted (s : Stored db bolt codec id) (l : List T)
      (r : Stored db bolt codec id × Try StateError (Unit {0})) : Type 0 where
    pub mirror : IsMirror r.0
    pub outcome :
        ((r.1 ≡ value tt) × ((k : String) → db.by_id (r.0).0 k ≡ latest k l (db.by_id s.0 k)))
        ⊎ ((r.1 ≢ value tt) × (r.0 ≡ s))

  from_index-value {ℓ} : {A : Type ℓ} (m : Try _ A) (a : A) → from_index m ≡ value a → m ≡ value a
  unfolding from_index
  from_index-value (value b) a e = cc
  from_index-value (error x) a e = cc
  from_index-value crash a e = cc

  module _ (L : IsMemdb db id schema) (B : IsBolt bolt) (C : IsCodec codec) where
    one_more :
        (t t' : db.Table) (b b' : bolt.Bucket) (x : T)
        → IsMirror (t, b)
        → db.insert t x ≡ value t'
        → db_put db bolt codec id b (id x) x ≡ value b'
        → IsMirror (t', b')
    unfolding db_put
    one_more t t' b b' x m e f k =
        let (raw, marshalled, put) = bind-value (codec.marshal x) (bolt.put b (id x)) b' f in
        rw (L.by_id-insert t t' x k e, B.get-put b b' (id x) k raw put)
          (elim (Bool-cases (id x == k)) [
            | inl same ↦
                rw same (x, C.unmarshal-marshal x raw marshalled, refl, L.insert_only t t' x e)
            | inr other ↦ rw other (m k)
          ])

    loop_correct :
        (l : List T) (t : db.Table) (b : bolt.Bucket)
        → IsMirror (t, b)
        → OnValue
            (λ (t', b').
              IsMirror (t', b') × ((k : String) → db.by_id t' k ≡ latest k l (db.by_id t k)))
            (upsert_loop db bolt codec id (t, b) l)
    unfolding upsert_loop
    loop_correct [] t b m = (m, λ k. refl)
    loop_correct (x ∷ l) t b m =
        let Done : Stored db bolt codec id → Type 0 = λ (t', b').
          IsMirror (t', b') × ((k : String) → db.by_id t' k ≡ latest k (x ∷ l) (db.by_id t k)) in
        OnValue-step Done (from_index (db.insert t x)) _ λ t' e.
          OnValue-step Done (db_put db bolt codec id b (id x) x) _ λ b' f.
            let inserted : db.insert t x ≡ value t' = from_index-value (db.insert t x) t' e in
            OnValue-map _ Done _ (loop_correct l t' b' (one_more t t' b b' x m inserted f))
              λ (t2, b2) (m2, same).
                (m2, λ k. same k ∙ ap (latest k l) (L.by_id-insert t t' x k inserted))

    abbrev Done : Stored db bolt codec id → List T → Stored db bolt codec id → Type 0
    Done s l s' = IsMirror s' × ((k : String) → db.by_id s'.0 k ≡ latest k l (db.by_id s.0 k))

    transact-IsUpserted :
        (s : Stored db bolt codec id) (l : List T) (m : Try StateError (Stored db bolt codec id))
        → IsMirror s
        → OnValue (Done s l) m
        → IsUpserted s l (transact s m)
    unfolding transact
    transact-IsUpserted s l (value s') m (m', same) = record {
      mirror = m';
      outcome = inl (refl, same);
    }
    transact-IsUpserted s l (error e) m d = record { mirror = m; outcome = inr (λ p. cc, refl) }
    transact-IsUpserted s l crash m d = record { mirror = m; outcome = inr (λ p. cc, refl) }

    read :
        (b : bolt.Bucket) (t : db.Table) (k : String) (raw : bolt.Value)
        → bolt.get b k ≡ some raw
        → Decodes (some raw) (db.by_id t k)
        → (x : T) × (db_get db bolt codec id b k ≡ value x)
          × (db.by_id t k ≡ some x)
          × All (Takes x) schema
    unfolding db_get
    read b t k raw e (x, decoded, at, taken) = (x, rw (e, db_get) decoded, at, taken)

    -- Where the bucket has something, the table has it, and it decodes.
    stored :
        (b : bolt.Bucket) (t : db.Table) (k : String)
        → IsMirror (t, b)
        → bolt.get b k ≢ none
        → (x : T) × (db_get db bolt codec id b k ≡ value x)
          × (db.by_id t k ≡ some x)
          × All (Takes x) schema
    stored b t k m h = elim (Option-cases (bolt.get b k)) [
      | inl e ↦ absurd (h e)
      | inr (raw, e) ↦
          let decoded : Decodes (some raw) (db.by_id t k) =
            subst (λ o. Decodes o (db.by_id t k)) e (m k) in
          read b t k raw e decoded
    ]

    absent :
        (b : bolt.Bucket) (t : db.Table) (k : String)
        → bolt.get b k ≡ none
        → Decodes (bolt.get b k) (db.by_id t k)
        → db.by_id t k ≡ none
    absent b t k e d = subst (λ o. Decodes o (db.by_id t k)) e d

    -- An upsert of a list either succeeds and leaves each of its objects under its id, the last of
    -- each, and what was there under the other ids; or it fails and changes nothing. The table and the bucket
    -- agree after it if they did before.
    pub upsert_correct :
        (s : Stored db bolt codec id) (l : List T)
        → IsMirror s
        → IsUpserted s l (upsert db bolt codec id s l)
    unfolding upsert
    upsert_correct (t, b) l m =
        transact-IsUpserted (t, b) l _ m
          (OnValue-step (Done (t, b) l) (upsert_loop db bolt codec id (t, b) l) _ λ (t', b') e.
            OnValue-step (Done (t, b) l) (bolt.commit b') _
              λ _ _. subst (OnValue (Done (t, b) l)) e (loop_correct l t b m))

    -- The table that is read from the bucket agrees with `t0` at the key.
    read_back :
        (b : bolt.Bucket) (t0 : db.Table) (l : List String) (t : db.Table)
        → IsMirror (t0, b)
        → ((k : String) → IsEntryOf k l → bolt.get b k ≢ none)
        → (t' : db.Table) × (index_object db bolt codec id b l t ≡ value t')
          × ((k : String) → db.by_id t k ≡ db.by_id t0 k → db.by_id t' k ≡ db.by_id t0 k)
          × ((k : String) → IsEntryOf k l → db.by_id t' k ≡ db.by_id t0 k)
    unfolding index_object from_index
    read_back b t0 [] t m h = (t, refl, λ k e. e, λ k i. absurd i)
    read_back b t0 (j ∷ l) t m h =
        let (x, got, at, taken) = stored b t0 j m (h j (inl refl)) in
        let (t1, e) = L.insert_total t x taken in
        let key : id x ≡ j = L.id-by_id t0 j x at in
        let here : db.by_id t1 j ≡ db.by_id t0 j =
          L.by_id-insert t t1 x j e ∙ rw (key, beq_self j) (sym at) in
        let keeps : (k : String) → db.by_id t k ≡ db.by_id t0 k → db.by_id t1 k ≡ db.by_id t0 k =
          λ k same.
            L.by_id-insert t t1 x k e
            ∙ rw key (elim (key_cases j k) [
              | inl p ↦ rw (← p, beq_self j) (sym at)
              | inr (_, other) ↦ rw other same
            ]) in
        let (t', f, kept, there) = read_back b t0 l t1 m (λ k i. h k (inr i)) in
        (
          t',
          rw (got, e) f,
          λ k same. kept k (keeps k same),
          λ k. elim [ inl p ↦ rw p (kept j here) | inr i ↦ there k i ],
        )

    -- Reading a bucket back into an empty table fails at no key, and gives a table with the same
    -- objects under the same ids as the one that agreed with the bucket.
    pub index_object-upsert :
        (t : db.Table) (b : bolt.Bucket)
        → IsMirror (t, b)
        → (t' : db.Table) × (index_object db bolt codec id b (bolt.keys b) db.empty ≡ value t')
          × ((k : String) → db.by_id t' k ≡ db.by_id t k)
    index_object-upsert t b m =
        let (t', e, kept, there) =
          read_back b t (bolt.keys b) db.empty m (λ k. (B.keys_lem b k).0) in
        (
          t',
          e,
          λ k. elim (Option-cases (bolt.get b k)) [
            | inl none_there ↦ kept k (L.by_id-empty k ∙ sym (absent b t k none_there (m k)))
            | inr (raw, some_there) ↦
                there k ((B.keys_lem b k).1 (λ n. ground (arith, n, some_there)))
          ],
        )
