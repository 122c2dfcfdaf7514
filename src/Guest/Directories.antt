-- ===== src/Guest/Directories.antt =====
-- pkg/guest/directories.go: making the directories that a request lists. `mkdir` says whether
-- `os.MkdirAll` of a path succeeds.
use remote_docker_agent.Prelude.{
  ℕ, ◌≡◌, inl, inr, Bool, true, false, not, Option, none, some, List, [], ◌∷◌, ◌++◌, if◌then◌else◌,
  Bool-cases, Text, codes, text_eq, text_eq_iff, All,
}

-- `body` is `none` when it cannot be read, and then what it decodes to.
pub record DirectoriesRequest : Type 0 where
  pub method : Text
  pub content_type : Text
  pub body : Option (Option (List Text))

-- The status that is sent, the directories that the body says were made, and the one that it says
-- could not be made.
pub record Answer : Type 0 where
  pub status : ℕ
  pub created : List Text
  pub failed : Option Text

abbrev refusal : ℕ → Answer
refusal status = record { status = status; created = []; failed = none }

unfoldable pub with_created : Text → Answer → Answer
with_created path a = record { status = a.status; created = path ∷ a.created; failed = a.failed }

-- `http.Error` with status 500: the first write to the body has sent the status 200 already.
unfoldable pub error_status : Bool → ℕ
error_status is_written = if is_written then 200 else 500

module _ (mkdir : Text → Bool) where
  -- `is_written` says whether something was written to the body.
  unfoldable pub create_each : Bool → List Text → Answer
  create_each is_written [] = record { status = 200; created = []; failed = none }
  create_each is_written (path ∷ paths) =
      let rest = create_each true paths in
      if mkdir path
      then with_created path rest
      else record { status = error_status is_written; created = []; failed = some path }

  unfoldable pub create_decoded : Option (Option (List Text)) → Answer
  create_decoded none = refusal 400
  create_decoded (some none) = refusal 400
  create_decoded (some (some paths)) = create_each false paths

  unfoldable pub handle_create_directories : DirectoriesRequest → Answer
  handle_create_directories r =
      if not (text_eq r.method (codes "POST"))
      then refusal 405
      else if not (text_eq r.content_type (codes "application/json"))
      then refusal 400
      else create_decoded r.body

  -- The listed directories up to the first that cannot be made: with `early` as the status when that
  -- is the very first, and 200 else.
  pub data MakesUpTo (early : ℕ) : List Text → Answer → Type 0 where
    all_made :
        {paths : List Text}
        → All (λ p. mkdir p ≡ true) paths
        → MakesUpTo early paths (record { status = 200; created = paths; failed = none })
    first_fails :
        (path : Text) (rest : List Text)
        → mkdir path ≡ false
        → MakesUpTo early
            (path ∷ rest)
            (record { status = early; created = []; failed = some path })
    later_fails :
        (first : Text) (made : List Text) (path : Text) (rest : List Text)
        → All (λ p. mkdir p ≡ true) (first ∷ made)
        → mkdir path ≡ false
        → MakesUpTo early
            (first ∷ made ++ path ∷ rest)
            (record { status = 200; created = first ∷ made; failed = some path })

  add_made :
      (early : ℕ) (path : Text) {paths : List Text} {a : Answer}
      → mkdir path ≡ true
      → MakesUpTo 200 paths a
      → MakesUpTo early (path ∷ paths) (with_created path a)
  unfolding with_created
  add_made early path h (all_made hs) = all_made (h, hs)
  add_made early path h (first_fails p rest f) = later_fails path [] p rest (h, tt) f
  add_made early path h (later_fails q made p rest hs f) =
      later_fails path (q ∷ made) p rest (h, hs) f

  create_each-MakesUpTo :
      (is_written : Bool) (paths : List Text)
      → MakesUpTo (if is_written then 200 else 500) paths (create_each is_written paths)
  unfolding create_each error_status
  create_each-MakesUpTo is_written [] = all_made tt
  create_each-MakesUpTo is_written (path ∷ paths) = elim (Bool-cases (mkdir path)) [
    | inl e ↦ rw (e, create_each) (add_made _ path e (create_each-MakesUpTo true paths))
    | inr e ↦ rw (e, create_each) (first_fails path paths e)
  ]

  -- A POST request with a list of paths as JSON makes them in order: all of them, or those in front
  -- of the first that fails, which the body names. The status is 500 when the very first path
  -- fails, and otherwise 200.
  pub handle_create_directories-MakesUpTo :
      (r : DirectoriesRequest) (paths : List Text)
      → r.method ≡ codes "POST"
      → r.content_type ≡ codes "application/json"
      → r.body ≡ some (some paths)
      → MakesUpTo 500 paths (handle_create_directories r)
  unfolding handle_create_directories create_decoded
  handle_create_directories-MakesUpTo r paths m t b =
      rw
        (
          (text_eq_iff r.method (codes "POST")).1 m,
          (text_eq_iff r.content_type (codes "application/json")).1 t,
          b,
        )
        (create_each-MakesUpTo false paths)
