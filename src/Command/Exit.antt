-- ===== src/Command/Exit.antt =====
-- The exit code of the server command.
use eth2_validator.Base.{◌≡◌, ◌↔◌, refl, List, String, ok, arith}
use eth2_validator.Base.Try.{Try, value, error, crash}
use eth2_validator.Command.{
  Config, ServerConfig, Host, Ending, second_signal, timed_out, graceful, Action, Run, or_exit,
  exit_code, handle_signals, start, debugger, read_config, build_validator_config, run,
}

-- The run with the code 0: each part of the start has succeeded, and the shutdown came to its end
-- before another signal and before the time was up.
pub record IsServed (host : Host) (args : List String) : Type 0 where
  pub config : Config host.Keymanager
  pub client_config : ServerConfig
  pub read : read_config host args ≡ value config
  pub watched : debugger host config ≡ value tt
  pub built : build_validator_config host config ≡ value client_config
  pub measured : host.setup_telemetry ≡ value tt
  pub served : host.new_server client_config ≡ value tt
  pub ended : host.ending ≡ graceful

abbrev Ends : Run → Type 0
Ends r = r.1 ≡ ok 0

-- A step of the run.
or_exit-Ends :
    {A : Type 0} (report : String → Action) (m : Try String A) (rest : A → Run)
    → Ends (or_exit report m rest)
    → (a : A) × (m ≡ value a) × Ends (rest a)
or_exit-Ends report (value a) rest e = (a, refl, e)
or_exit-Ends report (error x) rest e = cc e
or_exit-Ends report crash rest e = cc e

exit_code-graceful : (end : Ending) → exit_code end ≡ 0 → end ≡ graceful
exit_code-graceful second_signal e = absurd (omega (arith, e))
exit_code-graceful timed_out e = absurd (omega (arith, e))
exit_code-graceful graceful e = refl

module _ (host : Host) (args : List String) where
  to_served : Ends (run host args) → IsServed host args
  unfolding run start handle_signals
  to_served e =
      let (config, read, e1) = or_exit-Ends _ (read_config host args) _ e in
      let (_, watched, e2) = or_exit-Ends _ (debugger host config) _ e1 in
      let (client_config, built, e3) = or_exit-Ends _ (build_validator_config host config) _ e2 in
      let (_, measured, e4) = or_exit-Ends _ host.setup_telemetry _ e3 in
      let (_, served, e5) = or_exit-Ends _ (host.new_server client_config) _ e4 in
      record {
        config = config;
        client_config = client_config;
        read = read;
        watched = watched;
        built = built;
        measured = measured;
        served = served;
        ended = exit_code-graceful host.ending (cc e5);
      }

  from_served : IsServed host args → Ends (run host args)
  unfolding run start handle_signals
  from_served s = rw (s.read, s.watched, s.built, s.measured, s.served, s.ended) refl

  -- The server command exits with the code 0 just where the configuration is read and made into
  -- that of the validator, the debugger (where it is asked for), the telemetry and NewServer start
  -- without an error, and after the first signal the client stops before a second signal comes or the time is up.
  pub run-IsServed : ((run host args).1 ≡ ok 0) ↔ IsServed host args
  run-IsServed = (to_served, from_served)
