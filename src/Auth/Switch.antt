-- ===== src/Auth/Switch.antt =====
-- pkg/tsctl/auth/command-switch-org.go and storage.go: the selection of an organization, the refresh
-- of tokens in the background, and the file that both use. The servers and the endpoints of the
-- environment are parameters.
use remote_docker_agent.Prelude.{
  ℕ, zero, suc, ◌-◌, Bool, true, false, not, ◌&&◌, ◌||◌, Option, none, some, List, [], ◌∷◌, ltb,
  if◌then◌else◌, length, Text, is_empty, text_eq, Result, ok, err, ◌>>=◌, ◌>>◌, ℤ, pos, negsuc,
  atoi,
}
use remote_docker_agent.Auth.{
  UserInfo, TokenInfo, EndpointsInfo, AuthData, Organization, TokenResponse, Clock,
  is_token_expired, should_refresh_token, extract_user_info,
}

-- The auth file: missing, unreadable, or what it holds.
pub data Stored : Type 0 where
  missing unreadable : Stored
  holds : AuthData → Stored

pub data SwitchError : Type 0 where
  not_loaded not_logged_in bad_token expired not_listed no_input not_saved : SwitchError

unfoldable pub load_auth_data : Stored → Result SwitchError (Option AuthData)
load_auth_data missing = ok none
load_auth_data unreadable = err not_loaded
load_auth_data (holds data_) = ok (some data_)

unfoldable pub logged_in_token : Option TokenInfo → Result SwitchError TokenInfo
logged_in_token none = err not_logged_in
logged_in_token (some token) = if is_empty token.id_token then err not_logged_in else ok token

unfoldable pub logged_in : Option AuthData → Result SwitchError (AuthData × TokenInfo)
logged_in none = err not_logged_in
logged_in (some data_) = logged_in_token data_.token >>= λ token. ok (data_, token)

unfoldable pub unexpired : Option Bool → Result SwitchError (Unit {0})
unexpired none = err bad_token
unexpired (some true) = err expired
unexpired (some false) = ok tt

unfoldable pub wants_refresh : Option Bool → Text → Bool
wants_refresh none refresh_token = false
wants_refresh (some should) refresh_token = should && not (is_empty refresh_token)

-- An endpoint of the data, unless it is missing or empty.
unfoldable pub or_fallback : Text → Text → Text
or_fallback [] fallback = fallback
or_fallback (c ∷ endpoint) fallback = c ∷ endpoint

unfoldable pub auth_endpoint : Text → Option EndpointsInfo → Text
auth_endpoint fallback none = fallback
auth_endpoint fallback (some e) = or_fallback e.auth fallback

unfoldable pub open_api_endpoint : Text → Option EndpointsInfo → Text
open_api_endpoint fallback none = fallback
open_api_endpoint fallback (some e) = or_fallback e.open_api fallback

unfoldable pub get_elem? : ℕ → List Organization → Option Organization
get_elem? n [] = none
get_elem? zero (org ∷ orgs) = some org
get_elem? (suc n) (org ∷ orgs) = get_elem? n orgs

-- The organization that a number from 1 stands for.
unfoldable pub numbered : List Organization → Option ℤ → Option Organization
numbered orgs none = none
numbered orgs (some (negsuc n)) = none
numbered orgs (some (pos n)) =
    if ltb n 1 || ltb (length orgs) n then none else get_elem? (n - 1) orgs

-- The lines are read until one is the number of an organization.
unfoldable pub prompt_org_selection :
    (Text → Text) → List Organization → List Text → Option Organization
prompt_org_selection trim_space orgs [] = none
prompt_org_selection trim_space orgs (line ∷ lines) =
    elim (numbered orgs (atoi (trim_space line))) [
      | none ↦ prompt_org_selection trim_space orgs lines
      | some org ↦ some org
    ]

unfoldable pub with_organization : Organization → AuthData → AuthData
with_organization org data_ = record {
  user = data_.user;
  organization = some (record { id = org.id; name = org.name });
  token = data_.token;
  endpoints = data_.endpoints;
}

-- Until the list of organizations is asked for: the data, the endpoint to refresh the tokens at in
-- the background, if any, with the refresh token, and the endpoint to ask.
pub record Begun : Type 0 where
  pub data_ : AuthData
  pub refresh : Option (Text × Text)
  pub open_api : Text

unfoldable pub begin_selection :
    Clock → Text → Text → AuthData × TokenInfo → Result SwitchError Begun
begin_selection clock login_endpoint default_open_api (data_, token) =
    unexpired (is_token_expired clock token.id_token)
    >> ok (record {
      data_ = data_;
      refresh =
          if wants_refresh (should_refresh_token clock token.id_token) token.refresh_token
          then some (auth_endpoint login_endpoint data_.endpoints, token.refresh_token)
          else none;
      open_api = open_api_endpoint default_open_api data_.endpoints;
    })

unfoldable pub run_switch_org : Clock → Text → Text → Stored → Result SwitchError Begun
run_switch_org clock login_endpoint default_open_api stored = load_auth_data stored >>= λ loaded.
    logged_in loaded >>= begin_selection clock login_endpoint default_open_api

-- The data to save once an organization is selected: none for a user without organizations.
unfoldable pub selected : AuthData → Option Organization → Result SwitchError (Option AuthData)
selected data_ none = err no_input
selected data_ (some org) = ok (some (with_organization org data_))

unfoldable pub finish_selection :
    (Text → Text)
    → AuthData
    → Option (List Organization)
    → List Text
    → Result SwitchError (Option AuthData)
finish_selection trim_space data_ none lines = err not_listed
finish_selection trim_space data_ (some []) lines = ok none
finish_selection trim_space data_ (some (org ∷ orgs)) lines =
    selected data_ (prompt_org_selection trim_space (org ∷ orgs) lines)

-- A response without a new refresh token keeps the old one.
unfoldable pub new_tokens : TokenResponse → Text → TokenInfo
new_tokens response refresh_token = record {
  id_token = response.id_token;
  refresh_token = or_fallback response.refresh_token refresh_token;
}

unfoldable pub new_user : Option UserInfo → Option UserInfo → Option UserInfo
new_user none user = user
new_user (some info) user = some info

unfoldable pub refreshed_data :
    Clock → Text → TokenResponse → AuthData → Option TokenInfo → Option AuthData
refreshed_data clock refresh_token response data_ none = none
refreshed_data clock refresh_token response data_ (some token) =
    if text_eq token.refresh_token refresh_token
    then some (record {
      user = new_user (extract_user_info clock response.id_token) data_.user;
      organization = data_.organization;
      token = some (new_tokens response token.refresh_token);
      endpoints = data_.endpoints;
    })
    else none

-- What refreshTokenAsync saves, from what it loads after the response of the server.
unfoldable pub refresh_token_async : Clock → Text → Option TokenResponse → Stored → Option AuthData
refresh_token_async clock refresh_token none stored = none
refresh_token_async clock refresh_token (some response) missing = none
refresh_token_async clock refresh_token (some response) unreadable = none
refresh_token_async clock refresh_token (some response) (holds data_) =
    refreshed_data clock refresh_token response data_ data_.token
