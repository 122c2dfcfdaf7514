-- ===== src/Auth/Tests.antt =====
-- pkg/tsctl/auth: tokens and selections at concrete inputs.
use remote_docker_agent.Prelude.{
  ℕ, ◌≡◌, ◌↔◌, ◌≢◌, text_eq_iff, refl, true, false, none, some, [], ◌∷◌, ltb, Text, codes, text_eq,
  split, ok, err, ◌*◌, atoi, int_of, pos,
}
use remote_docker_agent.Auth.{
  TokenInfo, AuthData, Organization, TokenResponse, Clock, payload_of, decoded, parse_id_token,
  minus64, is_positive, is_token_expired, remaining_of, get_token_remaining_percentage,
  is_below_fifth, should_refresh_token,
}
use remote_docker_agent.Auth.Switch.{
  missing, holds, not_logged_in, expired, load_auth_data, logged_in, logged_in_token, unexpired,
  wants_refresh, auth_endpoint, open_api_endpoint, begin_selection, run_switch_org,
  prompt_org_selection, numbered, get_elem?,
}
use remote_docker_agent.Auth.Race.{
  selection_first, run_schedule, KeepsBoth, run_schedule-KeepsBoth_iff,
}

-- A token that was issued at 1000 and expires at 2000, at a time.
abbrev at_time : ℕ → Clock
at_time now = record {
  decode = λ payload. some (record {
    sub = codes "u";
    first_name = [];
    last_name = [];
    email = [];
    exp = 2000;
    iat = 1000;
  });
  is_after = λ exp. ltb exp now;
  unix = now;
  below_fifth = λ a b. ltb (5 * a) b;
}

abbrev jwt : Text
jwt = codes "h.p.s"

token_runs :
    (should_refresh_token (at_time 1799) jwt ≡ some false)
    × (should_refresh_token (at_time 1801) jwt ≡ some true)
    × (should_refresh_token (at_time 2000) jwt ≡ some true)
    × (is_token_expired (at_time 2000) jwt ≡ some false)
    × (is_token_expired (at_time 2001) jwt ≡ some true)
    × (should_refresh_token (at_time 1799) (codes "h.p") ≡ none)
unfolding should_refresh_token is_token_expired get_token_remaining_percentage remaining_of
    is_below_fifth minus64 is_positive parse_id_token decoded payload_of split
token_runs = (refl, refl, refl, refl, refl, refl)

abbrev old_token : TokenInfo
old_token = record { id_token = jwt; refresh_token = codes "r" }

abbrev user_data : AuthData
user_data = record { user = none; organization = none; token = some old_token; endpoints = none }

switch_runs :
    (run_switch_org (at_time 1900) (codes "login") (codes "api") (holds user_data)
      ≡ ok (record {
        data_ = user_data;
        refresh = some (codes "login", codes "r");
        open_api = codes "api";
      }))
    × (run_switch_org (at_time 2001) (codes "login") (codes "api") (holds user_data) ≡ err expired)
    × (run_switch_org (at_time 1) (codes "login") (codes "api") missing ≡ err not_logged_in)
unfolding run_switch_org load_auth_data logged_in logged_in_token begin_selection unexpired
    wants_refresh auth_endpoint open_api_endpoint should_refresh_token is_token_expired
    get_token_remaining_percentage remaining_of is_below_fifth minus64 is_positive parse_id_token
    decoded payload_of split
switch_runs = (refl, refl, refl)

abbrev acme : Organization
acme = record { id = codes "o1"; name = codes "acme"; description = []; subscription = [] }

prompt_runs :
    (prompt_org_selection (λ s. s) (acme ∷ []) (codes "0" ∷ codes "x" ∷ codes "2" ∷ codes "1" ∷ [])
      ≡ some acme)
    × (prompt_org_selection (λ s. s) (acme ∷ []) (codes "2" ∷ []) ≡ none)
unfolding prompt_org_selection numbered get_elem? atoi int_of
prompt_runs = (refl, refl)

abbrev response : TokenResponse
response = record {
  access_token = [];
  token_type = codes "Bearer";
  expires_in = pos 0;
  refresh_token = [];
  id_token = codes "h.q.s";
  scope = [];
}

other_token : jwt ≢ codes "h.q.s"
unfolding text_eq
other_token e =
    let differ : text_eq jwt (codes "h.q.s") ≡ true = (text_eq_iff jwt (codes "h.q.s")).1 e in
    absurd cc

run_schedule-KeepsBoth_iff_example :
    KeepsBoth acme response
      (run_schedule (at_time 1900) selection_first acme user_data (codes "r") response)
    ↔ (selection_first ≡ selection_first)
run_schedule-KeepsBoth_iff_example =
    run_schedule-KeepsBoth_iff (at_time 1900) selection_first acme user_data old_token response refl
      (λ e. absurd cc) other_token
