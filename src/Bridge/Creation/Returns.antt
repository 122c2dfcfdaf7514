-- ===== src/Bridge/Creation/Returns.antt =====
-- pkg/docker-proxy/mutagen-bridge: the parts of a set-up that cannot panic.
use remote_docker_agent.Prelude.{
  ◌≤◌, Bool, true, false, ◌||◌, Option, none, some, List, [], ◌∷◌, length, Text, eq_text, Result,
  ok, err, ◌>>=◌, guard, is_empty, arith,
}
use remote_docker_agent.Tunnel.{UrlError}
use remote_docker_agent.Bridge.Creation.{
  PerEndpoint, Setting, SetupError, Failure, panics, fails, bad_setting, Loaded, no_file,
  load_failed, loaded, Mutagen, short_id, or_bad_url, merge_global, with_global, merge_file,
  with_files, load_and_validate, parse_setting, parse_settings, ensure_ownership, ensure_ownerships,
}

-- No panic, and what a result satisfies.
pub data Yields {ℓ} {A : Type ℓ} (P : A → Type 0) : Result Failure A → Type ℓ where
  yields : {a : A} → P a → Yields P (ok a)
  failed : {e : SetupError} → Yields P (err (fails e))

-- No panic.
abbrev pub Returns {ℓ} : {A : Type ℓ} → Result Failure A → Type ℓ
Returns r = Yields (λ _. Unit) r

pub >>=-Yields {ℓ κ} :
    {A : Type ℓ} {B : Type κ} {P : A → Type 0} {Q : B → Type 0} (m : Result Failure A)
    (f : A → Result Failure B)
    → Yields P m
    → ((a : A) → P a → Yields Q (f a))
    → Yields Q (m >>= f)
>>=-Yields (ok a) f (yields h) k = k a h
>>=-Yields (err (fails e)) f failed k = failed
>>=-Yields (err panics) f h k = elim h [ ]

option-Returns {ℓ κ} :
    {A : Type ℓ} {B : Type κ} (o : Option A) (m : Result Failure B) (f : A → Result Failure B)
    → Returns m
    → ((a : A) → Returns (f a))
    → Returns (elim o [ none ↦ m | some a ↦ f a ])
option-Returns none m f h k = h
option-Returns (some a) m f h k = k a

pub guard-Returns : (b : Bool) (e : SetupError) → Returns (guard b (fails e))
guard-Returns true e = yields tt
guard-Returns false e = failed

pub short_id-Returns : (id : Text) → 8 ≤ length id → Returns (short_id id)
unfolding short_id
short_id-Returns (a ∷ b ∷ c ∷ d ∷ e ∷ f ∷ g ∷ h ∷ rest) le = yields tt
short_id-Returns [] le = absurd (omega arith)
short_id-Returns (a ∷ []) le = absurd (omega arith)
short_id-Returns (a ∷ b ∷ []) le = absurd (omega arith)
short_id-Returns (a ∷ b ∷ c ∷ []) le = absurd (omega arith)
short_id-Returns (a ∷ b ∷ c ∷ d ∷ []) le = absurd (omega arith)
short_id-Returns (a ∷ b ∷ c ∷ d ∷ e ∷ []) le = absurd (omega arith)
short_id-Returns (a ∷ b ∷ c ∷ d ∷ e ∷ f ∷ []) le = absurd (omega arith)
short_id-Returns (a ∷ b ∷ c ∷ d ∷ e ∷ f ∷ g ∷ []) le = absurd (omega arith)

pub or_bad_url-Returns {ℓ} :
    {A : Type ℓ} (failure : UrlError → SetupError) (r : Result UrlError A)
    → Returns (or_bad_url failure r)
unfolding or_bad_url
or_bad_url-Returns failure (ok a) = yields tt
or_bad_url-Returns failure (err e) = failed

module _ {C : Type 0} (mutagen : Mutagen C) where
  merge_global-Returns : (c : C) (l : Loaded C) → Returns (merge_global mutagen c l)
  unfolding merge_global
  merge_global-Returns c no_file = yields tt
  merge_global-Returns c load_failed = failed
  merge_global-Returns c (loaded d) = yields tt

  pub with_global-Returns : (no_global : Bool) (c : C) → Returns (with_global mutagen no_global c)
  unfolding with_global
  with_global-Returns true c = yields tt
  with_global-Returns false c =
      option-Returns mutagen.configuration_path _ _ failed
        (λ path. merge_global-Returns c (load_and_validate mutagen path))

  merge_file-Returns : (c : C) (l : Loaded C) → Returns (merge_file mutagen c l)
  unfolding merge_file
  merge_file-Returns c no_file = failed
  merge_file-Returns c load_failed = failed
  merge_file-Returns c (loaded d) = yields tt

  pub with_files-Returns : (c : C) (paths : List Text) → Returns (with_files mutagen c paths)
  unfolding with_files
  with_files-Returns c [] = yields tt
  with_files-Returns c (path ∷ paths) =
      >>=-Yields _ _ (merge_file-Returns c (load_and_validate mutagen path))
        (λ merged _. with_files-Returns merged paths)

  pub parse_setting-Returns :
      (setting : Setting) (text : Text) → Returns (parse_setting mutagen setting text)
  unfolding parse_setting
  parse_setting-Returns setting [] = yields tt
  parse_setting-Returns setting (c ∷ text) =
      option-Returns (mutagen.unmarshal setting (c ∷ text)) _ _ failed (λ n. yields tt)

  pub parse_settings-Returns :
      (setting : Setting) (texts : PerEndpoint Text)
      → Returns (parse_settings mutagen setting texts)
  unfolding parse_settings
  parse_settings-Returns setting texts =
      >>=-Yields _ _ (parse_setting-Returns setting texts.whole) (λ whole _.
        >>=-Yields _ _ (parse_setting-Returns setting texts.alpha) (λ alpha _.
          >>=-Yields _ _ (parse_setting-Returns setting texts.beta) (λ beta _. yields tt)))

  ensure_ownership-Returns : (text : Text) → Returns (ensure_ownership mutagen text)
  unfolding ensure_ownership
  ensure_ownership-Returns text =
      guard-Returns (is_empty text || mutagen.is_ownership text) (bad_setting text)

  pub ensure_ownerships-Returns :
      (texts : PerEndpoint Text) → Returns (ensure_ownerships mutagen texts)
  unfolding ensure_ownerships
  ensure_ownerships-Returns texts = >>=-Yields _ _ (ensure_ownership-Returns texts.whole) (λ _ _.
      >>=-Yields _ _ (ensure_ownership-Returns texts.alpha)
        (λ _ _. ensure_ownership-Returns texts.beta))
