-- ===== src/Connector/Authorization.antt =====
-- Who may reach a backend host: the decision of pkg/connector/database.go against the rows it read.
use remote_docker_agent.Prelude.{
  ℕ, suc, ◌≡◌, ◌≢◌, refl, ap, subst, ◌∙◌, sym, ◌↔◌, ◌⊎◌, inl, inr, true, false, List, [], ◌∷◌,
  Bool-cases, Text, is_empty, text_eq, text_eq_iff, nat_eq, eq_text, ok, err, Result-cases, arith,
}
use remote_docker_agent.Connector.Database.{
  BackendHost, Database, Row, row, no_rows, failed, DbError, not_authorized, RouteTarget,
  team_statement, mentions, get_backend_host, is_user_in_teams, authorize_on, is_user_authorized,
  route_to, route_connection,
}

-- The text stands in the list.
abbrev pub Member : Text → List Text → Type 0
Member a [] = ⊥
Member a (x ∷ xs) = (x ≡ a) ⊎ Member a xs

mentions_iff : (u : Text) (us : List Text) → (mentions u us ≡ true) ↔ Member u us
unfolding mentions
mentions_iff u [] = ground arith
mentions_iff u (v ∷ us) = ground (arith, text_eq_iff v u, mentions_iff u us)

pub record Team : Type 0 where
  pub team_id : Text
  pub org_id : Text
  pub user_ids : List Text

-- A row of the table `teams` of the organisation, among the listed teams, that has the user.
pub data InTeam (org_id user_id : Text) (ids : List Text) : List Team → Type 0 where
  here :
      {t : Team} {ts : List Team}
      → t.org_id ≡ org_id
      → Member t.team_id ids
      → Member user_id t.user_ids
      → InTeam org_id user_id ids (t ∷ ts)
  there :
      {t : Team} {ts : List Team}
      → InTeam org_id user_id ids ts
      → InTeam org_id user_id ids (t ∷ ts)

-- What PostgreSQL documents of `SELECT EXISTS`: the answer to the team query at every time is
-- whether such a row is there.
pub record AnswersTeams (db : Database) (teams : List Team) : Type 0 where
  pub answer :
      (n : ℕ) (org_id user_id : Text) (ids : List Text)
      → (db.exists_row n (team_statement ids) (org_id ∷ user_id ∷ ids) ≡ row true)
        ↔ InTeam org_id user_id ids teams

not-InTeam-nil : {org_id user_id : Text} {ts : List Team} → ¬ InTeam org_id user_id [] ts
not-InTeam-nil (here _ m _) = m
not-InTeam-nil (there i) = not-InTeam-nil i

-- The rule of the comment on `IsUserAuthorized`.
pub record MayAccess (teams : List Team) (host : BackendHost) (user_id org_id : Text) : Type 0 where
  pub same_org : host.org_id ≡ org_id
  pub listed : Member user_id host.user_ids ⊎ InTeam org_id user_id host.team_ids teams

Row-cases {ℓ} : {A : Type ℓ} (r : Row A) → ((r ≡ no_rows) ⊎ (r ≡ failed)) ⊎ ((a : A) × (r ≡ row a))
Row-cases no_rows = inl (inl refl)
Row-cases failed = inl (inr refl)
Row-cases (row a) = inr (a, refl)

row-ne :
    {r : Row BackendHost} {host : BackendHost} → (r ≡ no_rows) ⊎ (r ≡ failed) → r ≡ row host → ⊥
row-ne (inl m) f = cc
row-ne (inr m) f = cc

row-injective : {a b : BackendHost} → row a ≡ row b → a ≡ b
row-injective e = cc

module _ (db : Database) (user_id org_id connect_id : Text) (n : ℕ) where
  refused :
      (db.backend_host_row n connect_id ≡ no_rows) ⊎ (db.backend_host_row n connect_id ≡ failed)
      → (is_user_authorized db user_id org_id connect_id n).0 ≢ ok true
  unfolding is_user_authorized
  refused (inl m) h = let k = rw (m, is_user_authorized, get_backend_host) at h in cc
  refused (inr m) h = let k = rw (m, is_user_authorized, get_backend_host) at h in cc

  decided :
      {host : BackendHost}
      → db.backend_host_row n connect_id ≡ row host
      → is_user_authorized db user_id org_id connect_id n
        ≡ authorize_on db host user_id org_id (suc n)
  unfolding is_user_authorized
  decided found = rw (found, is_user_authorized, get_backend_host)

module _ (db : Database) (user_id org_id connect_id : Text) (n : ℕ) where
  stopped :
      (e : DbError)
      → (is_user_authorized db user_id org_id connect_id n).0 ≡ err e
      → (route_connection db user_id org_id connect_id n).0 ≡ err e
  unfolding route_connection
  stopped e r = rw (r, route_connection)

  denied :
      (is_user_authorized db user_id org_id connect_id n).0 ≡ ok false
      → (route_connection db user_id org_id connect_id n).0 ≡ err not_authorized
  unfolding route_connection
  denied r = rw (r, route_connection)

  granted :
      (is_user_authorized db user_id org_id connect_id n).0 ≡ ok true
      → (route_connection db user_id org_id connect_id n).0
        ≡ (route_to db connect_id (is_user_authorized db user_id org_id connect_id n).1).0
  unfolding route_connection
  granted r = rw (r, route_connection)

-- The address of the row that the n-th query reads.
pub record RoutesTo (db : Database) (n : ℕ) (connect_id : Text) (target : RouteTarget)
    : Type 0 where
  pub host : BackendHost
  pub read : db.backend_host_row n connect_id ≡ row host
  pub addr : host.internal_ip_addr ≡ target.backend_addr
  pub ne_nil : target.backend_addr ≢ []
  pub id : target.connect_id ≡ connect_id

eq_nil : (s : Text) → is_empty s ≡ true → s ≡ []
eq_nil s h = ground arith

route_to_iff :
    (db : Database) (connect_id : Text) (n : ℕ) (target : RouteTarget)
    → ((route_to db connect_id n).0 ≡ ok target) ↔ RoutesTo db n connect_id target
unfolding route_to
route_to_iff db connect_id n target = elim (Row-cases (db.backend_host_row n connect_id)) [
  | inl (inl m) ↦ (
    λ h. let k = rw (m, route_to, get_backend_host) at h in cc,
    λ t. absurd (row-ne (inl m) t.read),
  )
  | inl (inr m) ↦ (
    λ h. let k = rw (m, route_to, get_backend_host) at h in cc,
    λ t. absurd (row-ne (inr m) t.read),
  )
  | inr (host, found) ↦ elim (Bool-cases (is_empty host.internal_ip_addr)) [
    | inl nil ↦ (
      λ h. let k = rw (found, route_to, get_backend_host, nil) at h in cc,
      λ t.
          let same = row-injective (sym t.read ∙ found) in
          absurd (t.ne_nil (sym t.addr ∙ ap (λ h. h.internal_ip_addr) same ∙ eq_nil _ nil)),
    )
    | inr full ↦ (
      λ h.
          let k = rw (found, route_to, get_backend_host, full) at h in
          record {
            host = host;
            read = found;
            addr = ground arith;
            ne_nil = ground arith;
            id = ground arith;
          },
      λ t.
          let same = row-injective (sym t.read ∙ found) in
          rw (found, route_to, get_backend_host, full) (ap ok (ground (arith, t.addr, t.id, same))),
    )
  ]
]

module _ (db : Database) (teams : List Team) (answers : AnswersTeams db teams) where
  in_teams :
      (user_id org_id : Text) (ids : List Text) (n : ℕ)
      → ((is_user_in_teams db user_id org_id ids n).0 ≡ ok true) ↔ InTeam org_id user_id ids teams
  unfolding is_user_in_teams
  in_teams user_id org_id [] n = (λ h. cc, λ i. absurd (not-InTeam-nil i))
  in_teams user_id org_id (t ∷ ts) n =
      let a = answers.answer n org_id user_id (t ∷ ts) in
      (λ h. a.0 (ground arith), λ i. let e = a.1 i in rw (e, is_user_in_teams))

  authorize_on_iff :
      (host : BackendHost) (user_id org_id : Text) (n : ℕ)
      → ((authorize_on db host user_id org_id n).0 ≡ ok true) ↔ MayAccess teams host user_id org_id
  unfolding authorize_on
  authorize_on_iff host user_id org_id n = elim (Bool-cases (text_eq host.org_id org_id)) [
    | inr other ↦ (
      λ h. let k = rw (other, authorize_on) at h in cc,
      λ a. let k = (text_eq_iff _ _).1 a.same_org in cc,
    )
    | inl same ↦ elim (Bool-cases (mentions user_id host.user_ids)) [
      | inl direct ↦ (
        λ _. record {
          same_org = (text_eq_iff _ _).0 same;
          listed = inl ((mentions_iff _ _).0 direct);
        },
        λ _. rw (same, direct, authorize_on),
      )
      | inr absent ↦ (
        λ h. record {
          same_org = (text_eq_iff _ _).0 same;
          listed =
              inr (
                (in_teams user_id org_id host.team_ids n).0 (rw (same, absent, authorize_on) at h));
        },
        λ a. rw (same, absent, authorize_on) (in_teams_of a.listed absent),
      )
    ]
  ]
    where
      in_teams_of :
          Member user_id host.user_ids ⊎ InTeam org_id user_id host.team_ids teams
          → mentions user_id host.user_ids ≡ false
          → (is_user_in_teams db user_id org_id host.team_ids n).0 ≡ ok true
      in_teams_of (inl m) absent = let k = (mentions_iff user_id host.user_ids).1 m in cc
      in_teams_of (inr i) absent = (in_teams user_id org_id host.team_ids n).1 i

  -- A user is authorised exactly when the row of the host that was read is of the user's
  -- organisation and lists the user, or a team of that organisation that has the user.
  pub is_user_authorized_iff :
      (user_id org_id connect_id : Text) (n : ℕ)
      → ((is_user_authorized db user_id org_id connect_id n).0 ≡ ok true) ↔ (
          (host : BackendHost) × (db.backend_host_row n connect_id ≡ row host)
          × MayAccess teams host user_id org_id)
  unfolding is_user_authorized
  is_user_authorized_iff user_id org_id connect_id n =
      elim (Row-cases (db.backend_host_row n connect_id)) [
        | inl missing ↦ (
          λ h. absurd (refused db user_id org_id connect_id n missing h),
          λ (host, found, _). absurd (row-ne missing found),
        )
        | inr (host, found) ↦ (
          λ h. (
            host,
            found,
            (authorize_on_iff host user_id org_id (suc n)).0
                (ap (λ p. p.0) (sym (decided db user_id org_id connect_id n found)) ∙ h),
          ),
          λ (other, found', access).
              let same : other ≡ host = row-injective (sym found' ∙ found) in
              ap (λ p. p.0) (decided db user_id org_id connect_id n found)
              ∙ (authorize_on_iff host user_id org_id (suc n)).1
                  (subst (λ x. MayAccess teams x user_id org_id) same access),
        )
      ]

  -- `RouteConnection` succeeds exactly when the user may access the host as it was first read and
  -- the host that is read again after the checks has an address: that address is the target.
  pub route_connection_iff :
      (user_id org_id connect_id : Text) (n : ℕ) (target : RouteTarget)
      → ((route_connection db user_id org_id connect_id n).0 ≡ ok target) ↔ (
          ((host : BackendHost) × (db.backend_host_row n connect_id ≡ row host)
            × MayAccess teams host user_id org_id)
          × RoutesTo db (is_user_authorized db user_id org_id connect_id n).1 connect_id target)
  route_connection_iff user_id org_id connect_id n target =
      let m = (is_user_authorized db user_id org_id connect_id n).1 in
      elim (Result-cases (is_user_authorized db user_id org_id connect_id n).0) [
        | inr (e, r) ↦ (
          λ h. let k = sym (stopped db user_id org_id connect_id n e r) ∙ h in cc,
          λ (access, _).
              let k = (is_user_authorized_iff user_id org_id connect_id n).1 access in cc,
        )
        | inl (false, r) ↦ (
          λ h. let k = sym (denied db user_id org_id connect_id n r) ∙ h in cc,
          λ (access, _).
              let k = (is_user_authorized_iff user_id org_id connect_id n).1 access in cc,
        )
        | inl (true, r) ↦ (
          λ h. (
            (is_user_authorized_iff user_id org_id connect_id n).0 r,
            (route_to_iff db connect_id m target).0
                (sym (granted db user_id org_id connect_id n r) ∙ h),
          ),
          λ (_, t).
              granted db user_id org_id connect_id n r ∙ (route_to_iff db connect_id m target).1 t,
        )
      ]
