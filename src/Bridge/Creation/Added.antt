-- ===== src/Bridge/Creation/Added.antt =====
-- pkg/docker-proxy/mutagen-bridge: the sessions that SetupForwards and SetupSyncs add.
use remote_docker_agent.Prelude.{
  suc, ◌≤◌, ◌≡◌, refl, ap, sym, ◌∙◌, true, false, Option, some, List, [], ◌∷◌, ◌++◌, append_assoc,
  append-nil, length, All, All-append, length-append, Text, text_eq_refl, eq_text, lookup,
  lookup-insert, Result, ok, err, is_empty, arith,
}
use remote_docker_agent.ContainerId.{decompress_container_id}
use remote_docker_agent.Bridge.Sessions.{
  Session, SessionManager, container_id_label, container_ids, session_container_id,
}
use remote_docker_agent.Bridge.Sessions.Teardown.{is_label, without}
use remote_docker_agent.Bridge.Creation.{
  SetupError, Failure, panics, fails, Specification, created, setup_single, session_id, setup_each,
}
use remote_docker_agent.Bridge.Creation.Returns.{Yields, yields, failed}

-- Mutagen's `Create`: a created session has an identifier and the labels, and is listed behind the
-- older ones; an error leaves the sessions as they are.
pub record HonoursLabels {ℓ} {C : Type 0} {S : Type ℓ} (mutagen : SessionManager S)
    (create : Specification C → S → Result Text Text × S) : Type ℓ where
  pub adds :
      (specification : Specification C) (sessions after : S) (id : Text) (states : List Session)
      → create specification sessions ≡ (ok id, after)
      → mutagen.list sessions ≡ ok states
      → mutagen.list after
        ≡ ok (states ++ record { identifier = id; labels = specification.labels } ∷ [])
  pub refuses :
      (specification : Specification C) (sessions after : S) (e : Text) (states : List Session)
      → create specification sessions ≡ (err e, after)
      → mutagen.list sessions ≡ ok states
      → mutagen.list after ≡ ok states

-- A session of the container whose id the label is.
abbrev pub HasLabel : Text → Session → Type 0
HasLabel label s = lookup container_id_label s.labels ≡ some label

-- Some entry satisfies the predicate.
pub data Any {ℓ κ} {A : Type ℓ} (P : A → Type κ) : List A → Type (ℓ ⊔ κ) where
  here : {x : A} {xs : List A} → P x → Any P (x ∷ xs)
  there : {x : A} {xs : List A} → Any P xs → Any P (x ∷ xs)

-- A specification that is made, and that `Create` does not refuse.
abbrev pub Accepted {ℓ} :
    {C : Type 0} {S : Type ℓ}
    → (Specification C → S → Result Text Text × S)
    → Result Failure (Specification C)
    → Type ℓ
Accepted {C = C} {S = S} create prepared =
    (specification : Specification C) × (prepared ≡ ok specification)
    × ((sessions : S)
        → (id : Text) × (after : S) × (create specification sessions ≡ (ok id, after)))

module _ {ℓ} {S : Type ℓ} (mutagen : SessionManager S) where
  -- Sessions are added, all with the label.
  pub record Adds (label : Text) (states : List Session) (left : S) : Type ℓ where
    pub added : List Session
    pub listed : mutagen.list left ≡ ok (states ++ added)
    pub labelled : All (HasLabel label) added

  module _ {C : Type 0} (create : Specification C → S → Result Text Text × S)
      (honours : HonoursLabels mutagen create) (label : Text) where
    created-Adds :
        (specification : Specification C) (sessions : S) (states : List Session)
        (r : Result Text Text × S)
        → create specification sessions ≡ r
        → mutagen.list sessions ≡ ok states
        → lookup container_id_label specification.labels ≡ some label
        → (out : Result SetupError Text) × (left : S) × (created create r ≡ some (out, left))
          × (a : Adds label states left) × (((id : Text) × (after : S) × (r ≡ (ok id, after)))
              → 1 ≤ length a.added)
    unfolding created
    created-Adds specification sessions states (ok id, after) e l h = (
      _,
      after,
      refl,
      record {
        added = record { identifier = id; labels = specification.labels } ∷ [];
        listed = honours.adds specification sessions after id states e l;
        labelled = (h, tt);
      },
      λ _. omega arith,
    )
    created-Adds specification sessions states (err e', after) e l h = (
      _,
      after,
      refl,
      record {
        added = [];
        listed =
            honours.refuses specification sessions after e' states e l
            ∙ ap ok (sym (append-nil states));
        labelled = tt;
      },
      λ (id, other, k). absurd cc,
    )

    pub setup_single-Adds :
        (prepared : Result Failure (Specification C)) (sessions : S) (states : List Session)
        → Yields (λ s. lookup container_id_label s.labels ≡ some label) prepared
        → mutagen.list sessions ≡ ok states
        → (out : Result SetupError Text) × (left : S) × (setup_single create prepared sessions
            ≡ some (out, left))
          × (a : Adds label states left) × (Accepted create prepared → 1 ≤ length a.added)
    unfolding setup_single
    setup_single-Adds (ok specification) sessions states (yields h) l =
        let (out, left, e, a, n) =
          created-Adds specification sessions states (create specification sessions) refl l h in
        (
          out,
          left,
          e,
          a,
          λ (other, same, accepts).
              n (let i : specification ≡ other = cc in rw i (accepts sessions)),
        )
    setup_single-Adds (err panics) sessions states h l = elim h [ ]
    setup_single-Adds (err (fails e)) sessions states failed l = (
      _,
      sessions,
      refl,
      record { added = []; listed = l ∙ ap ok (sym (append-nil states)); labelled = tt },
      λ (other, same, accepts). absurd cc,
    )

  pub setup_each-Adds {κ ι} :
      {B : Type κ} (Good : B → Type ι) (label : Text)
      (single : B → S → Option (Result SetupError Text × S))
      → ((b : B) (sessions : S) (states : List Session)
          → mutagen.list sessions ≡ ok states
          → (out : Result SetupError Text) × (left : S) × (single b sessions ≡ some (out, left))
            × (a : Adds label states left) × (Good b → 1 ≤ length a.added))
      → (bindings : List B) (sessions : S) (states : List Session)
      → mutagen.list sessions ≡ ok states
      → (ids : List Text) × (left : S) × (setup_each single bindings sessions ≡ some (ids, left))
        × (length ids ≡ length bindings)
        × (a : Adds label states left) × (Any Good bindings → 1 ≤ length a.added)
  unfolding setup_each
  setup_each-Adds Good label single h [] sessions states l = (
    [],
    sessions,
    refl,
    refl,
    record { added = []; listed = l ∙ ap ok (sym (append-nil states)); labelled = tt },
    λ none_good. elim none_good [ ],
  )
  setup_each-Adds Good label single h (b ∷ bs) sessions states l =
      let (out, after, e, first, n) = h b sessions states l in
      let (ids, left, rest, count, more, k) =
        setup_each-Adds Good label single h bs after (states ++ first.added) first.listed in
      (
        session_id out ∷ ids,
        left,
        rw (e, rest, setup_each),
        ap suc count,
        record {
          added = first.added ++ more.added;
          listed = more.listed ∙ ap ok (append_assoc states first.added more.added);
          labelled =
              All-append (HasLabel label) first.added more.added first.labelled more.labelled;
        },
        λ good.
            let i = length-append first.added more.added in
            elim good [
              | here g ↦ let j = n g in omega arith
              | there g ↦ let j = k g in omega arith
            ],
      )

without-All :
    (label : Text) (added : List Session) → All (HasLabel label) added → without label added ≡ []
unfolding without is_label
without-All label [] h = refl
without-All label (s ∷ ss) h = rw (h.0, text_eq_refl label, without-All label ss h.1)

pub without-append :
    (label : Text) (states added : List Session)
    → All (HasLabel label) added
    → without label (states ++ added) ≡ without label states
unfolding without
without-append label [] added h = without-All label added h
without-append label (s ∷ states) added h = rw (without-append label states added h)

session-HasLabel :
    (id label : Text) (s : Session)
    → decompress_container_id label ≡ id
    → HasLabel label s
    → session_container_id s ≡ id
unfolding session_container_id
session-HasLabel id label s d h = rw (h, session_container_id) d

labelled_listed :
    (id label : Text) (added : List Session)
    → decompress_container_id label ≡ id
    → is_empty id ≡ false
    → All (HasLabel label) added
    → 1 ≤ length added
    → lookup id (container_ids added) ≡ some true
unfolding container_ids
labelled_listed id label [] d e h n = absurd (omega arith)
labelled_listed id label (s ∷ ss) d e h n =
    rw (session-HasLabel id label s d h.0, e)
      (lookup-insert id id true (container_ids ss) ∙ rw (text_eq_refl id) refl)

-- A container is listed once sessions of its own are.
pub added_listed :
    (id label : Text) (states added : List Session)
    → decompress_container_id label ≡ id
    → is_empty id ≡ false
    → All (HasLabel label) added
    → 1 ≤ length added
    → lookup id (container_ids (states ++ added)) ≡ some true
unfolding container_ids
added_listed id label [] added d e h n = labelled_listed id label added d e h n
added_listed id label (s ∷ states) added d e h n =
    let r = added_listed id label states added d e h n in
    let i = lookup-insert (session_container_id s) id true (container_ids (states ++ added)) in
    ground arith

pub is_empty_of_long : (id : Text) → 8 ≤ length id → is_empty id ≡ false
is_empty_of_long [] h = absurd (omega arith)
is_empty_of_long (c ∷ id) h = refl
