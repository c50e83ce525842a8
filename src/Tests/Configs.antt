-- ===== src/Tests/Configs.antt =====
-- The settings page, the file and the exporter at concrete inputs.
use flaresolverr_go.Prelude.{
  String, true, false, Option, none, some, List, [], ◌∷◌, ◌≡◌, ◌↔◌, refl, length, Result, ok, err,
  Error, failure, ◌==◌, if◌then◌else◌, arith, trim, to_lower, equal_fold,
}
use flaresolverr_go.Prelude.Int.{ℤ, pos}
use flaresolverr_go.Config.{
  Config, default_config_values, prepare_config, canonical_log_level, canonical_browser_backend,
}
use flaresolverr_go.Config.Load.{
  Read, parsed, load_config, read_config_file, resolve_config_path, Env,
}
use flaresolverr_go.Config.Save.{config_file_from_config}
use flaresolverr_go.Config.Precedence.{FromLayers, load_config-FromLayers}
use flaresolverr_go.Config.RoundTrip.{reads, load_config-save}
use flaresolverr_go.Config.Yaml.{Document, absent, tree, placed, read_document, render_config_yaml}
use flaresolverr_go.Tests.Documents.{decode, decode-Decodes, existing, existing-IsMergeable}
use flaresolverr_go.Settings.{
  Url, Payload, Headers, to_config, payload_from_config, guard_state_changing_request,
}
use flaresolverr_go.Settings.Restart.{to_config-IsSaveable, saved_settings_survive}
use flaresolverr_go.Settings.Guard.{IsOwn, guard_iff, IsSafe, to_config-IsSafe}
use flaresolverr_go.Service.Types.{Request, Response, empty_response}
use flaresolverr_go.Metrics.{HttpServer, Metrics, new_metrics, apply_config, observe}
use flaresolverr_go.Metrics.Exporter.{
  IsTracked, IsServing, new_metrics-IsTracked, apply_config-IsServing,
}
use flaresolverr_go.Metrics.Results.{IsCounted, observe-IsCounted}
use flaresolverr_go.Server.Panics.{
  header, body, other, error_plugin, fresh_writer, IsContained, error_plugin-IsContained,
}

-- The settings of the page, with a host and a port.
abbrev payload : Payload
payload = record (payload_from_config default_config_values) {
  host = " 127.0.0.1 ";
  port = pos 8080;
}

abbrev parse_url : String → Option Url
parse_url s = some (record { scheme = "https"; host = "example.org" })

abbrev atoi : String → Option ℤ
atoi s = none

abbrev documents : String → Document
documents path = if path == "/etc/init.yaml" then existing else absent

abbrev cfg_of : Result Config → Config
cfg_of (ok c) = c
cfg_of (err e) = default_config_values

abbrev saved : Config
saved = cfg_of (to_config parse_url payload default_config_values)

payload_is_accepted : to_config parse_url payload default_config_values ≡ ok saved
unfolding to_config payload_from_config trim to_lower equal_fold default_config_values
    canonical_log_level canonical_browser_backend
payload_is_accepted = refl

to_config-IsSafe_example : IsSafe parse_url saved
to_config-IsSafe_example =
    to_config-IsSafe parse_url payload default_config_values saved payload_is_accepted

abbrev paths : List String
paths = "/etc/init.yaml" ∷ "init.yaml" ∷ []

first_path : resolve_config_path (reads decode documents) paths ≡ some "/etc/init.yaml"
unfolding resolve_config_path read_config_file read_document
first_path = refl

saved_settings_survive_example :
    load_config atoi
      (reads decode (
        placed documents "/etc/init.yaml"
          (tree (render_config_yaml existing (config_file_from_config saved)))))
      (λ _. "")
      paths
    ≡ (prepare_config saved, [])
saved_settings_survive_example =
    saved_settings_survive decode parse_url atoi documents "/etc/init.yaml" paths payload
      default_config_values saved decode-Decodes refl payload_is_accepted first_path
      existing-IsMergeable

load_config-save_example :
    load_config atoi
      (reads decode (
        placed documents "/etc/init.yaml"
          (tree (render_config_yaml existing (config_file_from_config saved)))))
      (λ _. "")
      paths
    ≡ (prepare_config saved, [])
load_config-save_example =
    load_config-save decode atoi documents "/etc/init.yaml" paths saved decode-Decodes first_path
      existing-IsMergeable
      (to_config-IsSaveable parse_url payload default_config_values saved refl payload_is_accepted)

-- The host comes from the environment.
abbrev env : Env
env key = if key == "HOST" then "localhost" else ""

abbrev disk : String → Read
disk s = parsed (config_file_from_config default_config_values)

load_config-FromLayers_example :
    FromLayers atoi env
      (config_file_from_config default_config_values)
      (load_config atoi disk env paths).0
load_config-FromLayers_example =
    load_config-FromLayers atoi disk env paths (config_file_from_config default_config_values) found
  where
    found :
        (read_config_file disk paths).0 ≡ ok (some (config_file_from_config default_config_values))
    found = unfold read_config_file in refl

abbrev media_type : String → Option String
media_type s = some s

abbrev headers : Headers
headers = record {
  content_type = "application/json";
  sec_fetch_site = "same-origin";
  origin = "https://example.org";
  host = "example.org";
}

guard_iff_example :
    (guard_state_changing_request media_type parse_url headers ≡ ok tt)
    ↔ IsOwn media_type parse_url headers
guard_iff_example = guard_iff media_type parse_url headers

abbrev shutdown : HttpServer → Option Error
shutdown e = some (failure "context deadline exceeded")

abbrev exporting : Config
exporting = record default_config_values { prometheus_enabled = true }

abbrev moved : Config
moved = record exporting { prometheus_port = pos 9000 }

-- The exporter, started on its first port.
abbrev running : Metrics
running = (apply_config shutdown exporting (new_metrics exporting)).1

running-IsTracked : IsTracked running
running-IsTracked =
    (apply_config-IsServing shutdown exporting (new_metrics exporting)
      (new_metrics-IsTracked exporting)).0

apply_config-IsServing_example :
    IsTracked (apply_config shutdown moved running).1
    × IsServing (apply_config shutdown moved running).1
    × ((apply_config shutdown moved running).1.enabled ≡ true)
    × ((apply_config shutdown moved running).1.port ≡ pos 9000)
apply_config-IsServing_example = apply_config-IsServing shutdown moved running running-IsTracked

abbrev answered : Response
answered = record empty_response {
  status = "ok";
  message = "Challenge solved!";
  start_timestamp = 1000;
  end_timestamp = 4000;
}

abbrev asked : Request
asked = record {
  cmd = "request.get";
  cookies = [];
  max_timeout = pos 60000;
  proxy = none;
  session = "";
  session_ttl_minutes = pos 0;
  url = "https://example.org/";
  post_data = "";
  return_only_cookies = false;
  return_screenshot = false;
  wait_in_seconds = pos 0;
  disable_media = none;
  tabs_till_verify = none;
}

observe-IsCounted_example :
    IsCounted (observe (λ url. some "example.org") asked answered (new_metrics exporting))
    × (length (observe (λ url. some "example.org") asked answered (new_metrics exporting)).counts
        ≡ 1)
unfolding new_metrics
observe-IsCounted_example =
    observe-IsCounted (λ url. some "example.org") asked answered (new_metrics exporting)
      (record { same = refl; named = refl })

error_plugin-IsContained_example :
    IsContained
      (header 200 ∷ body ∷ [])
      (some (other "nil map"))
      (error_plugin (header 200 ∷ body ∷ []) (some (other "nil map")) fresh_writer)
error_plugin-IsContained_example =
    error_plugin-IsContained (header 200 ∷ body ∷ []) (some (other "nil map"))
      (ground arith, (tt, tt))
