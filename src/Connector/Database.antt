-- ===== src/Connector/Database.antt =====
-- pkg/connector/database.go: authorisation and routing. The database is a parameter: what it answers
-- to the n-th query, so that rows may change between two queries of one connection.
use remote_docker_agent.Prelude.{
  ℕ, suc, ◌+◌, Bool, true, false, not, List, [], ◌∷◌, ◌++◌, if◌then◌else◌, Text, codes, is_empty,
  text_eq, join, nat_eq, eq_text, Result, ok, err, decimal,
}

pub record BackendHost : Type 0 where
  pub connect_id : Text
  pub internal_ip_addr : Text
  pub org_id : Text
  pub user_ids : List Text
  pub team_ids : List Text

pub data DbError : Type 0 where
  no_backend_host query_failed team_check_failed : DbError
  not_authorized no_internal_ip : DbError

-- A row of `QueryRow(...).Scan(...)`: `pgx.ErrNoRows`, another error, or the row.
pub data Row {ℓ} (A : Type ℓ) : Type ℓ where
  no_rows failed : Row A
  row : A → Row A

-- The answers of the pool; the first argument counts the queries so far.
pub record Database : Type 0 where
  pub backend_host_row : ℕ → Text → Row BackendHost
  pub exists_row : ℕ → Text → List Text → Row Bool

-- A handler that queries the database: the count of queries, a result, the new count.
abbrev pub Db : Type 0 → Type 0
Db A = ℕ → Result DbError A × ℕ

pub record RouteTarget : Type 0 where
  pub backend_addr : Text
  pub connect_id : Text

-- The placeholders `$3`, `$4`, … for the team ids.
placeholders : ℕ → List Text → List Text
placeholders i [] = []
placeholders i (t ∷ ts) = (b'$' ∷ decimal (i + 3)) ∷ placeholders (suc i) ts

unfoldable pub team_statement : List Text → Text
unfolding placeholders
team_statement team_ids =
    codes
      "\n\t\tSELECT EXISTS(\n\t\t\tSELECT 1 \n\t\t\tFROM teams \n\t\t\tWHERE org_id = $1 \n\t\t\t  AND team_id IN ("
    ++ join b',' (placeholders 0 team_ids)
    ++ codes ")\n\t\t\t  AND $2 = ANY(user_ids)\n\t\t)\n\t"

-- The loop over `host.UserIDs`.
unfoldable pub mentions : Text → List Text → Bool
mentions user_id [] = false
mentions user_id (u ∷ us) = if text_eq u user_id then true else mentions user_id us

scan_host : Row BackendHost → Result DbError BackendHost
scan_host no_rows = err no_backend_host
scan_host failed = err query_failed
scan_host (row host) = ok host

scan_exists : Row Bool → Result DbError Bool
scan_exists no_rows = err team_check_failed
scan_exists failed = err team_check_failed
scan_exists (row exists) = ok exists

module _ (db : Database) where
  -- `GetBackendHostByConnectID`
  unfoldable pub get_backend_host : Text → Db BackendHost
  unfolding scan_host
  get_backend_host connect_id n = (scan_host (db.backend_host_row n connect_id), suc n)

  -- `isUserInTeams`
  unfoldable pub is_user_in_teams : Text → Text → List Text → Db Bool
  unfolding scan_exists
  is_user_in_teams user_id org_id [] n = (ok false, n)
  is_user_in_teams user_id org_id (t ∷ ts) n =
      (scan_exists (db.exists_row n (team_statement (t ∷ ts)) (org_id ∷ user_id ∷ t ∷ ts)), suc n)

  -- What is decided once the host is known.
  unfoldable pub authorize_on : BackendHost → Text → Text → Db Bool
  unfolding mentions is_user_in_teams
  authorize_on host user_id org_id n =
      if not (text_eq host.org_id org_id)
      then (ok false, n)
      else if mentions user_id host.user_ids
      then (ok true, n)
      else is_user_in_teams user_id org_id host.team_ids n

  -- `IsUserAuthorized`
  unfoldable pub is_user_authorized : Text → Text → Text → Db Bool
  unfolding authorize_on get_backend_host
  is_user_authorized user_id org_id connect_id n =
      let (found, n') = get_backend_host connect_id n in
      elim found [ ok host ↦ authorize_on host user_id org_id n' | err e ↦ (err e, n') ]

  -- `RouteConnection`: the host is read a second time.
  unfoldable pub route_to : Text → Db RouteTarget
  unfolding get_backend_host
  route_to connect_id n =
      let (found, n') = get_backend_host connect_id n in
      elim found [
        | err e ↦ (err e, n')
        | ok host ↦
            if is_empty host.internal_ip_addr
            then (err no_internal_ip, n')
            else (ok (record { backend_addr = host.internal_ip_addr; connect_id = connect_id }), n')
      ]

  unfoldable pub route_connection : Text → Text → Text → Db RouteTarget
  route_connection user_id org_id connect_id n =
      let (allowed, n') = is_user_authorized user_id org_id connect_id n in
      elim allowed [
        | err e ↦ (err e, n')
        | ok authorized ↦ if authorized then route_to connect_id n' else (err not_authorized, n')
      ]
