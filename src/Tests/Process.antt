-- ===== src/Tests/Process.antt =====
-- An api-aggregator whose listener cannot be made, and one that is told to stop.
use aggregated_apiserver_ope.Prelude.{
  ℕ, String, ◌≡◌, ◌≢◌, ◌⊎◌, ◌↔◌, refl, true, Option, none, [], ok, err,
}
use aggregated_apiserver_ope.Server.{new, defaults}
use aggregated_apiserver_ope.Server.Interleaved.{Run}
use aggregated_apiserver_ope.Server.Listen.{Listener, listen, with_certificate}
use aggregated_apiserver_ope.Aggregator.Process.{
  Process, return_run, return_manager, run_failed, listening_failed, manager_stopping, started,
  Running, starting, acting, Actions,
}
use aggregated_apiserver_ope.Aggregator.Process.Status.{Exited}
use aggregated_apiserver_ope.Aggregator.Process.Exit.{process_exits}
use aggregated_apiserver_ope.Tests.Sample.{sample, SampleErr, plain, wrapped}
use aggregated_apiserver_ope.Tests.Server.{api, options}

abbrev listener : Listener sample
listener = record {
  Ip = String;
  Info = ℕ;
  parse_ip = λ text. text;
  new_secure_serving = record {
    bind_address = "0.0.0.0";
    bind_port = 443;
    cert_file = "";
    key_file = "";
    cert_directory = "apiserver.local.config/certificates";
  };
  mkdir_temp = λ dir pattern. ok "/tmp/api-aggregator-certs-1";
  self_signed = λ secure host. ok secure;
  apply_to = λ secure. ok secure.bind_port;
  serve = λ info. none;
}

-- The port is taken.
abbrev refused : Listener sample
refused = record listener { apply_to = λ secure. err (plain "address already in use" []) }

abbrev listen_error : SampleErr
listen_error = wrapped "applying secure serving options: %w" [] (plain "address already in use" [])

abbrev failed_process : Process sample refused api
failed_process = return_manager sample refused api none (
    return_run sample refused api (run_failed sample refused api listen_error)
      (started sample refused api options))

failed-Running : Running sample refused api failed_process
unfolding return_run listen with_certificate defaults new
failed-Running =
    acting (acting (starting options) (listening_failed listen_error refl refl))
      (manager_stopping refl refl)

failed-Exited :
    Exited sample refused api failed_process (run_failed sample refused api listen_error) none
unfolding return_run return_manager
failed-Exited = (refl, refl)

failed_first : failed_process.first_error ≡ run_failed sample refused api listen_error
unfolding return_run return_manager
failed_first = refl

process_exits_example :
    ((failed_process.signalled ≡ true) ⊎ (failed_process.first_error ≢ none)
      → (q : Process sample refused api) × (r m : Option SampleErr) × Actions sample refused api
          failed_process q
        × Exited sample refused api q r m)
    × ((r m : Option SampleErr)
        → Exited sample refused api failed_process r m
        → ((failed_process.first_error ≡ none) ↔ ((r ≡ none) × (m ≡ none)))
          × (failed_process.first_error ≡ none → failed_process.signalled ≡ true))
    × Run sample api failed_process.system
process_exits_example = process_exits sample refused api failed_process failed-Running
