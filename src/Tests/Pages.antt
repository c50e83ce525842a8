-- ===== src/Tests/Pages.antt =====
-- The pipeline on a page with a challenge.
use flaresolverr_go.Prelude.{err, ◌≡◌, true, false, [], ◌∷◌, refl, any, ok, none}
use flaresolverr_go.Prelude.Int.{pos}
use flaresolverr_go.Service.Types.{Solution, BrowserRequest, http_get}
use flaresolverr_go.Pipeline.{
  access_denied_error, Page, resolve_page, load, check_access, check_selectors, clear_challenge,
  await_document_ready, settle, snapshot, add_response, add_screenshot,
}
use flaresolverr_go.Pipeline.Order.{Ordered, resolve_page-Ordered}
use flaresolverr_go.Pipeline.Answers.{IsMessage, is_solving, resolve_page-IsMessage}

abbrev page : Page
page = record {
  navigate = λ t. ok tt;
  set_page_cookies = λ t. ok tt;
  title = λ t. ok "Just a moment...";
  selector_exists = λ t s. ok false;
  challenge_present = λ t. ok true;
  solve_challenge = λ t. ok tt;
  document_ready = λ t. ok true;
  before_deadline = λ t. true;
  sleep = λ t d. ok tt;
  current_url = λ t. ok "https://example.org/";
  page_user_agent = λ t. ok "agent";
  page_cookies = λ t url. ok [];
  document_response = λ t url. ok (200, []);
  apply_turnstile_token = λ t result. ok result;
  html = λ t. ok "<html></html>";
  screenshot = λ t. ok "";
  log_html_configured = false;
}

abbrev request : BrowserRequest
request = record {
  url = "https://example.org/";
  method = http_get;
  post_data = "";
  cookies = record { name = "a"; value = "b"; domain = "example.org"; path = "/" } ∷ [];
  max_timeout_ms = pos 60000;
  return_only_cookies = false;
  return_screenshot = true;
  wait_in_seconds = pos 2;
  disable_media = true;
  tabs_till_verify = none;
  log_html = false;
}

resolve_page-Ordered_example : Ordered (resolve_page page request []).1
resolve_page-Ordered_example = resolve_page-Ordered page request

abbrev solution : Solution
solution = record {
  url = "https://example.org/";
  status = 200;
  headers = [];
  response = "<html></html>";
  cookies = [];
  user_agent = "agent";
  screenshot = "";
  turnstile_token = "";
}

resolve_page-IsMessage_example :
    IsMessage "Challenge solved!" (any is_solving (resolve_page page request []).1)
unfolding resolve_page load check_access check_selectors clear_challenge await_document_ready settle
    snapshot add_response add_screenshot
resolve_page-IsMessage_example =
    resolve_page-IsMessage page request solution "Challenge solved!"
      (resolve_page page request []).1 refl

-- A page that bans the client.
abbrev banned : Page
banned = record page { title = λ t. ok "Access denied | example.org" }

ban_is_an_error : (resolve_page banned request []).0 ≡ err access_denied_error
unfolding resolve_page load check_access
ban_is_an_error = refl
