-- ===== src/Server/Core/Well.antt =====
-- What the calls of the server did where they ended, and that the validators in the state are named
-- by their keys after each.
use eth2_validator.Base.{
  ℕ, ◌≡◌, ◌⊎◌, inl, inr, refl, sym, ap, ◌∙◌, subst, Bool, true, false, List, [], ◌∷◌, String,
  Option, some, ok, string_eq, if◌then◌else◌, ◌==◌, bind-ok,
}
use eth2_validator.Base.Try.{Try, value, error, crash, All, bind-value, OnValue}
use eth2_validator.GoMap
use eth2_validator.Duty.{Duty, Validator}
use eth2_validator.DutyQueue.{Context, new_eval_queue, enqueue, ack, AckError}
use eth2_validator.Scheduler.Input.{Error}
use eth2_validator.State.Bolt.{StateError}
use eth2_validator.State.Schema.{validators_schema}
use eth2_validator.State.Store.{Parts, State, new_state, upsert_duties, upsert_validator}
use eth2_validator.State.Store.Mirror.{upsert_correct}
use eth2_validator.State.Store.Restart.{IsParts, IsConsistent, new_state-restart, latest_validator}
use eth2_validator.Server.Signing.{initial_vals}
use eth2_validator.Server.Signing.Accounts.{IsAccount, initial_vals-IsAccount}
use eth2_validator.Server.Core.{
  Setup, Server, ServerError, state_failed, key_rejected, failing, put_plan, acknowledged,
  new_server,
}

module _ {p : Parts} (setup : Setup p) where
  -- What was done with a plan, if handleNewEpoch ended.
  pub put_plan-ok :
      (srv srv' : Server p) (r : Try ServerError (Unit {0})) (ctx : Context)
      (m : Try Error (List Duty × ℕ))
      → put_plan setup srv ctx m ≡ ok (srv', r)
      → (srv' ≡ srv)
        ⊎ ((duties : List Duty) × (enqueue srv.eval_queue ctx duties ≡ ok srv'.eval_queue)
            × (srv'.state ≡ (upsert_duties p srv.state duties).0))
  put_plan-ok srv srv' r ctx (error x) e = inl (sym (cc e))
  put_plan-ok srv srv' r ctx crash e = cc
  put_plan-ok srv srv' r ctx (value (duties, ids)) e =
      let (q, f, g) = bind-ok (enqueue srv.eval_queue ctx duties) _ (srv', r) e in
      let h : srv'
          ≡ record srv { state = (upsert_duties p srv.state duties).0; eval_queue = q; ids = ids } =
        cc g in
      inr (duties, f ∙ ap ok (sym (ap (λ x. x.eval_queue) h)), ap (λ x. x.state) h)

  pub acknowledged-ok :
      (srv srv' : Server p) (id : String) (u : State p × Try StateError (Unit {0}))
      → acknowledged setup srv id u ≡ ok srv'
      → (e : Option AckError) × (ack srv.eval_queue id ≡ ok (srv'.eval_queue, e))
        × (srv'.state ≡ u.0)
  acknowledged-ok srv srv' id (s', value x) e =
      let ((q, a), f, g) = bind-ok (ack srv.eval_queue id) _ srv' e in
      let h : srv'
          ≡ record srv { state = s'; eval_queue = q; written = GoMap.delete id srv.written } =
        cc g in
      (a, f ∙ ap (λ y. ok (y, a)) (sym (ap (λ x. x.eval_queue) h)), ap (λ x. x.state) h)
  acknowledged-ok srv srv' id (s', error x) e = cc
  acknowledged-ok srv srv' id (s', crash) e = cc

  abbrev pub AreAccounts : State p → Type 0
  AreAccounts s =
      (k : String) (v : Validator)
      → p.validators_db.by_id s.validators k ≡ some v
      → IsAccount setup.crypto v

  latest-All :
      (I : Validator → Type 0) (k : String) (l : List Validator) (old : Option Validator)
      → All I l
      → ((v : Validator) → old ≡ some v → I v)
      → (v : Validator) → latest_validator p k l old ≡ some v
      → I v
  latest-All I k [] old i o v e = o v e
  latest-All I k (x ∷ l) old (i, is) o v e = latest-All I k l _ is (step (x.pub_key == k)) v e
    where
      step : (b : Bool) (w : Validator) → (if b then some x else old) ≡ some w → I w
      step true w f = let same : x ≡ w = cc f in subst I same i
      step false w f = o w f

  failing-value :
      {E : Type 0} {A : Type 0} (f : E → ServerError) (m : Try E A) (a : A)
      → failing f m ≡ value a
      → m ≡ value a
  failing-value f (value b) a e = cc e
  failing-value f (error x) a e = cc
  failing-value f crash a e = cc

  accounts_of_keys :
      (keys : List String) (vals : List Validator)
      → initial_vals setup.crypto keys ≡ value vals
      → All (IsAccount setup.crypto) vals
  accounts_of_keys keys vals e =
      subst (OnValue (All (IsAccount setup.crypto))) e (initial_vals-IsAccount setup.crypto keys)

  module _ (P : IsParts p) where
    pub upsert_validator-AreAccounts :
        (s : State p) (l : List Validator)
        → IsConsistent p s
        → All (IsAccount setup.crypto) l
        → AreAccounts s
        → IsConsistent p (upsert_validator p s l).0 × AreAccounts (upsert_validator p s l).0
    unfolding upsert_validator
    upsert_validator-AreAccounts s l c new old =
        let u =
          upsert_correct p.validators_db p.bolt p.validators_codec (λ v. v.pub_key)
            (validators_schema p.indexers) P.validators_db P.bolt P.validators_codec
            (s.validators, s.validators_bucket) l c.validators in
        (
          record { duties = c.duties; validators = u.mirror },
          λ k v e. elim u.outcome [
            | inl (done, at) ↦
                latest-All (IsAccount setup.crypto) k l _ new (old k) v (sym (at k) ∙ e)
            | inr (failed, same) ↦ old k v (ap (λ t. p.validators_db.by_id t.0 k) (sym same) ∙ e)
          ],
        )

    -- NewServer on the file of a consistent state whose validators are accounts.
    pub new_server-AreAccounts :
        (s : State p) (keys : List String) (srv : Server p)
        → IsConsistent p s
        → AreAccounts s
        → new_server setup s.duties_bucket s.validators_bucket keys ≡ value srv
        → IsConsistent p srv.state × AreAccounts srv.state × (srv.eval_queue ≡ new_eval_queue)
    unfolding new_server
    new_server-AreAccounts s keys srv c a e =
        let (s', f, duties, validators, c') = new_state-restart p P s c in
        let (s1, f1, e1) =
          bind-value (failing state_failed (new_state p s.duties_bucket s.validators_bucket)) _ srv
            e in
        let (vals, f2, e2) =
          bind-value (failing key_rejected (initial_vals setup.crypto keys)) _ srv e1 in
        let (u, f3, e3) =
          bind-value (failing state_failed (upsert_validator p s1 vals).1) _ srv e2 in
        let same : s' ≡ s1 = value_inj (ap (failing state_failed) (sym f) ∙ f1) in
        let is : srv ≡ record {
          state = (upsert_validator p s1 vals).0;
          eval_queue = new_eval_queue;
          ids = 0;
          written = [];
        } =
          value_inj (sym e3) in
        let (kept, accounts) =
          upsert_validator-AreAccounts s1 vals (subst (IsConsistent p) same c')
            (accounts_of_keys keys vals (failing-value key_rejected _ vals f2))
            (subst AreAccounts same (λ k v g. a k v (sym (validators k) ∙ g))) in
        (rw is kept, rw is accounts, rw is refl)
      where
        value_inj : {A : Type 0} {x y : A} → ◌≡◌ {A = Try ServerError A} (value x) (value y) → x ≡ y
        value_inj q = cc q
