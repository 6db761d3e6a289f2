-- ===== src/Server/Core/Kept.antt =====
-- Through all turns the queue is sound, what was inserted into the tables agrees with the file, and every validator is named
-- by its key; so a signature is one of the key that was asked for.
use eth2_validator.Base.{
  ℕ, ◌<◌, ◌^◌, ◌≡◌, ◌≢◌, inl, inr, refl, sym, ap, ◌∙◌, subst, true, List, [], ◌∷◌, String, Option,
  none, some, ok, Returns-at, arith, string_eq,
}
use eth2_validator.Base.Try.{Try, value, crash}
use eth2_validator.DelayHeap.Nodes.{Time}
use eth2_validator.Duty.{Bytes, Duty, Validator, Metadata}
use eth2_validator.DutyQueue.{new_eval_queue}
use eth2_validator.DutyQueue.Loop.{new_loop, notified, enqueues, acks, passes, start}
use eth2_validator.DutyQueue.Timer.{notified-IsSound, IsSound}
use eth2_validator.DutyQueue.Steps.{Step-IsSound, start-IsSound}
use eth2_validator.State.Bolt.{StateError}
use eth2_validator.State.Store.{Parts, State, upsert_duties, upsert_duty}
use eth2_validator.State.Store.Restart.{IsParts, IsConsistent, upsert_duties_correct}
use eth2_validator.Server.Signing.Accounts.{IsAccount}
use eth2_validator.Server.Lifecycle.{Query, lifecycle_round}
use eth2_validator.Server.Lifecycle.Answers.{answered, answered-some}
use eth2_validator.Server.Lifecycle.Round.{lifecycle_round_correct}
use eth2_validator.Server.Core.{
  Setup, Server, handle_new_epoch, new_server, completed, write_result, finish,
}
use eth2_validator.Server.Core.Turns.{
  Daemon, system, Turn, epoch, writes, ends, round, moves, restarts, Turns, here, next,
}
use eth2_validator.Server.Core.Well.{
  AreAccounts, put_plan-ok, acknowledged-ok, new_server-AreAccounts,
}
use eth2_validator.Server.Signing.{IsCrypto, validator_key, sign, root_to_sign}
use eth2_validator.Scheduler.Input.{DomainType}
use eth2_validator.State.Store.Runs.{empty_state, empty_state-IsConsistent}
use eth2_validator.Server.Signing.Signatures.{IsAt, sign-verify}

-- What is asked of the beacon node: it answers with uint64 numbers or an error.
pub record IsQuery (query : Query) : Type 0 where
  pub calm : (k : String) → query k ≢ crash
  pub words :
      (k : String) (m : Metadata)
      → query k ≡ value m
      → (m.index < 2 ^ 64) × (m.activation_epoch < 2 ^ 64)

module _ {p : Parts} (setup : Setup p) (query : Query) (priv_keys : List String) where
  abbrev pub At : Type 0
  At = Daemon setup query priv_keys

  -- What the queue and the state have at every moment. The state has each object as it was
  -- inserted: the results that a worker has written since are in the server's `written`.
  pub record IsWell (d : At) : Type 0 where
    pub sound : IsSound (system setup query priv_keys d)
    pub consistent : IsConsistent p d.server.state
    pub accounts : AreAccounts setup d.server.state

  module _ (P : IsParts p) (Q : IsQuery query) where
    answered-IsAccount :
        (o : Option Validator)
        → ((v : Validator) → o ≡ some v → IsAccount setup.crypto v)
        → (v : Validator) → answered query o ≡ some v
        → IsAccount setup.crypto v
    unfolding validator_key
    answered-IsAccount none old v e = cc
    answered-IsAccount (some w) old v e = elim (answered-some query w v e) [
      | inl same ↦ subst (IsAccount setup.crypto) same (old w refl)
      | inr (m, q, same) ↦
          let a = old w refl in
          subst (IsAccount setup.crypto) same (record {
            keyed = record { key = a.keyed.key; decoded = a.keyed.decoded; named = a.keyed.named };
            words = λ n f.
                subst (λ x. (x.index < 2 ^ 64) × (x.activation_epoch < 2 ^ 64)) (some_inj f)
                  (Q.words _ m q);
          })
    ]
      where
        some_inj : {x y : Metadata} → ◌≡◌ {A = Option Metadata} (some x) (some y) → x ≡ y
        some_inj f = cc f

    round-AreAccounts :
        (s s' : State p) (r : Try StateError (Unit {0}))
        → IsConsistent p s
        → AreAccounts setup s
        → lifecycle_round query p s ≡ ok (s', r)
        → IsConsistent p s' × AreAccounts setup s'
    round-AreAccounts s s' r c a e =
        let i = Returns-at (s', r) (lifecycle_round_correct query p P s Q.calm c) e in
        (
          i.consistent,
          λ k v f. elim i.outcome [
            | inl (done, at) ↦ answered-IsAccount _ (a k) v (sym (at k) ∙ f)
            | inr (failed, at) ↦ a k v (sym (at k) ∙ f)
          ],
        )

    duties-AreAccounts :
        (s s' : State p) (duties : List Duty)
        → IsConsistent p s
        → AreAccounts setup s
        → s' ≡ (upsert_duties p s duties).0
        → IsConsistent p s' × AreAccounts setup s'
    duties-AreAccounts s s' duties c a e =
        let u = upsert_duties_correct p P s duties c in
        (
          rw e u.consistent,
          λ k v f. a k v (
              ap (λ t. p.validators_db.by_id t k)
                (sym u.validators_kept ∙ ap (λ x. x.validators) (sym e))
              ∙ f),
        )

    fresh :
        (now : Time)
        → IsSound (record { queue = new_eval_queue; loop = new_loop; now = now; acked = [] })
    unfolding start
    fresh now = Step-IsSound (passes {s = start} now (omega arith)) start-IsSound

    Turn-IsWell : (d d' : At) → Turn setup query priv_keys d d' → IsWell d → IsWell d'
    unfolding handle_new_epoch finish write_result upsert_duty
    Turn-IsWell d d' (epoch {srv = srv} {r = r} ctx n sent e) w =
        elim (put_plan-ok setup d.server srv r ctx _ e) [
          | inl same ↦
              subst (λ x. IsWell (record d { server = x; loop = notified sent d.loop })) (sym same)
                (record {
                  sound =
                      notified-IsSound (system setup query priv_keys d) d.server.eval_queue d.acked
                        sent w.sound w.sound.safe (λ k x h. h);
                  consistent = w.consistent;
                  accounts = w.accounts;
                })
          | inr (duties, queued, stored) ↦
              let (c, a) =
                duties-AreAccounts d.server.state srv.state duties w.consistent w.accounts stored in
              record {
                sound = Step-IsSound (enqueues ctx duties sent queued) w.sound;
                consistent = c;
                accounts = a;
              }
        ]
    Turn-IsWell d d' (writes duty res) w = record {
      sound = w.sound;
      consistent = w.consistent;
      accounts = w.accounts;
    }
    Turn-IsWell d d' (ends {srv = srv} duty res sent e) w =
        let (failed, acked, stored) =
          acknowledged-ok setup (write_result setup d.server duty res) srv duty.id
            (upsert_duty p d.server.state (completed setup d.server duty res)) e in
        let (c, a) =
          duties-AreAccounts d.server.state srv.state (completed setup d.server duty res ∷ [])
            w.consistent w.accounts stored in
        record {
          sound = Step-IsSound (acks duty.id sent acked) w.sound;
          consistent = c;
          accounts = a;
        }
    Turn-IsWell d d' (round {s = s} {r = r} e) w =
        let (c, a) = round-AreAccounts d.server.state s r w.consistent w.accounts e in
        record { sound = w.sound; consistent = c; accounts = a }
    Turn-IsWell d d' (moves st) w = record {
      sound = Step-IsSound st w.sound;
      consistent = w.consistent;
      accounts = w.accounts;
    }
    Turn-IsWell d d' (restarts {srv = srv} e) w =
        let (c, a, q) =
          new_server-AreAccounts setup P d.server.state priv_keys srv w.consistent w.accounts e in
        record {
          sound =
              subst (λ x. IsSound (record { queue = x; loop = new_loop; now = d.now; acked = [] }))
                (sym q) (fresh d.now);
          consistent = c;
          accounts = a;
        }

    Turns-IsWell : (d d' : At) → Turns setup query priv_keys d d' → IsWell d → IsWell d'
    Turns-IsWell d d' here w = w
    Turns-IsWell d d' (next r t) w = Turn-IsWell _ d' t (Turns-IsWell d _ r w)

    -- The process that NewServer makes on a new file.
    abbrev pub boot : Server p → Time → At
    boot srv now = record { server = srv; loop = new_loop; now = now; acked = [] }

    -- Whatever turns the process takes after NewServer on a new file, restarts among them, where
    -- the parts do what is documented of them and the beacon node answers a query with uint64
    -- numbers or an error: the queue is sound, the tables, with each object as it was when it was
    -- last inserted, have what the buckets decode to, and
    -- every validator is named by its key and has uint64 metadata.
    pub boot-IsWell :
        (srv : Server p) (now : Time) (d : At)
        → new_server setup p.bolt.empty p.bolt.empty priv_keys ≡ value srv
        → Turns setup query priv_keys (boot srv now) d
        → IsWell d
    boot-IsWell srv now d e r =
        let (c, a, q) =
          new_server-AreAccounts setup P (empty_state p P) priv_keys srv
            (empty_state-IsConsistent p P) (λ k v f. absurd (cc (f, P.validators_db.by_id-empty k)))
            e in
        Turns-IsWell (boot srv now) d r (record {
          sound =
              subst (λ x. IsSound (record { queue = x; loop = new_loop; now = now; acked = [] }))
                (sym q) (fresh now);
          consistent = c;
          accounts = a;
        })

    -- Whatever turns the process takes after NewServer on a new file, where the parts, the BLS
    -- library and the beacon node do what is documented of them: a signature that Sign returns
    -- for a uint64 index verifies, for the signing root, under a public key by which the state
    -- names a validator with the index.
    pub Turns-sign :
        (srv : Server p) (now : Time) (d : At)
        → new_server setup p.bolt.empty p.bolt.empty priv_keys ≡ value srv
        → Turns setup query priv_keys (boot srv now) d
        → IsCrypto setup.crypto
        → (domain : DomainType) (n account_index : ℕ) (root signature : Bytes)
        → account_index < 2 ^ 64
        → sign setup.crypto p setup.spec setup.genesis_root d.server.state domain n account_index
            root
          ≡ value signature
        → (v : Validator) × (pub_key signed_root : Bytes) × IsAt setup.crypto p P setup.spec
            setup.genesis_root d.server.state account_index v
          × (v.pub_key ≡ setup.crypto.encode_hex pub_key)
          × (root_to_sign setup.crypto setup.spec setup.genesis_root domain n root
              ≡ value signed_root)
          × (setup.crypto.verify pub_key signed_root signature ≡ true)
    Turns-sign srv now d e r C domain n account_index root signature h f =
        let w = boot-IsWell srv now d e r in
        sign-verify setup.crypto p P setup.spec setup.genesis_root d.server.state C
          (λ v m kept g. (w.accounts v.pub_key v kept).words m g)
          (λ v kept. (w.accounts v.pub_key v kept).keyed) domain n account_index root signature h f
