-- ===== src/Bridge/FileSync/Created.antt =====
-- pkg/docker-proxy/mutagen-bridge/file-sync.go: the sessions that SetupSyncs creates, and what is
-- left of them after TeardownSyncs.
use remote_docker_agent.Prelude.{
  ℕ, ◌≤◌, ◌≡◌, refl, ap, sym, ◌∙◌, inr, Bool, true, false, none, some, List, [], ◌∷◌, ◌++◌, length,
  All, All-append, Text, codes, text_eq, text_eq_refl, eq_text, if◌then◌else◌, Map, lookup,
  lookup-insert, Result, ok, guard,
}
use remote_docker_agent.Net.{cut}
use remote_docker_agent.ContainerId.{compress_container_id}
use remote_docker_agent.ContainerId.RoundTrip.{decompress-compress}
use remote_docker_agent.Bridge.Sessions.{
  Session, SessionManager, container_id_label, container_ids, list_sessions,
}
use remote_docker_agent.Bridge.Sessions.Teardown.{
  IsContainerId, IsLabelled, HonoursSelectors, lookup-container_ids,
}
use remote_docker_agent.Bridge.FileSync.{BindMount, FileSyncManager, teardown_syncs}
use remote_docker_agent.Bridge.FileSync.Listing.{teardown_syncs-list_sessions}
use remote_docker_agent.Bridge.FileSync.Settings.{
  CreateConfiguration, create_configuration, SyncModes, effective_permissions, parse_vcs_mode,
  parse_mode, parse_modes, parse_sync_settings, ensure_owners, parse_compression,
  sync_configurations,
}
use remote_docker_agent.Bridge.FileSync.Setup.{
  sync_specification, mounts_at, setup_single_sync, setup_syncs,
}
use remote_docker_agent.Bridge.Creation.{
  TransportConfig, PerEndpoint, synchronization_mode, hash, byte_size, probe_mode, scan_mode,
  stage_mode, symbolic_link_mode, watch_mode, ignore_syntax, permissions_mode, file_mode,
  compression, bad_destination, bad_source, bad_name, bad_label_key, bad_label_value, bad_setting,
  fails, Mutagen, Specification, compressed_or_panic, add_labels, label_parts,
}
use remote_docker_agent.Bridge.Creation.Returns.{
  Yields, yields, failed, Returns, >>=-Yields, guard-Returns, short_id-Returns, or_bad_url-Returns,
  with_global-Returns, with_files-Returns, parse_setting-Returns, parse_settings-Returns,
  ensure_ownerships-Returns,
}
use remote_docker_agent.Bridge.Creation.Added.{
  HonoursLabels, HasLabel, Adds, setup_single-Adds, setup_each-Adds, without-append, Accepted,
}

HasLabel-IsLabelled :
    (id label : Text) (added : List Session)
    → IsContainerId id
    → compress_container_id id ≡ some label
    → All (HasLabel label) added
    → All IsLabelled added
HasLabel-IsLabelled id label [] h c a = tt
HasLabel-IsLabelled id label (s ∷ ss) h c a =
    (inr (id, label, h, c, a.0), HasLabel-IsLabelled id label ss h c a.1)

module _ {C : Type 0} (mutagen : Mutagen C) (modes : SyncModes C) where
  parse_vcs_mode-Returns : (a b : Bool) → Returns (parse_vcs_mode mutagen modes a b)
  unfolding parse_vcs_mode
  parse_vcs_mode-Returns true true = failed
  parse_vcs_mode-Returns true false = yields tt
  parse_vcs_mode-Returns false true = yields tt
  parse_vcs_mode-Returns false false = yields tt

  parse_mode-Returns :
      (is_mode : ℕ → Bool) (text : Text) → Returns (parse_mode mutagen modes is_mode text)
  unfolding parse_mode
  parse_mode-Returns is_mode [] = yields tt
  parse_mode-Returns is_mode (c ∷ text) =
      >>=-Yields _ _ (parse_setting-Returns mutagen file_mode (c ∷ text)) (λ mode _.
        >>=-Yields (guard (is_mode mode) (fails (bad_setting (c ∷ text)))) _
          (guard-Returns (is_mode mode) (bad_setting (c ∷ text))) (λ _ _. yields tt))

  parse_modes-Returns :
      (is_mode : ℕ → Bool) (texts : PerEndpoint Text)
      → Returns (parse_modes mutagen modes is_mode texts)
  unfolding parse_modes
  parse_modes-Returns is_mode texts =
      >>=-Yields _ _ (parse_mode-Returns is_mode texts.whole) (λ whole _.
        >>=-Yields _ _ (parse_mode-Returns is_mode texts.alpha)
          (λ alpha _. >>=-Yields _ _ (parse_mode-Returns is_mode texts.beta) (λ beta _. yields tt)))

  ensure_owners-Returns : (c : CreateConfiguration) → Returns (ensure_owners mutagen modes c)
  unfolding ensure_owners
  ensure_owners-Returns c =
      >>=-Yields _ _ (ensure_ownerships-Returns mutagen c.default_owner)
        (λ _ _. ensure_ownerships-Returns mutagen c.default_group)

  parse_compression-Returns :
      (c : CreateConfiguration) → Returns (parse_compression mutagen modes c)
  unfolding parse_compression
  parse_compression-Returns c = parse_settings-Returns mutagen compression c.compression

  parse_sync_settings-Returns :
      (c : CreateConfiguration) → Returns (parse_sync_settings mutagen modes c)
  unfolding parse_sync_settings
  parse_sync_settings-Returns c =
      >>=-Yields _ _ (parse_setting-Returns mutagen synchronization_mode c.synchronization_mode)
        (λ sync _. >>=-Yields _ _ (parse_setting-Returns mutagen hash c.hash) (λ hashing _.
          >>=-Yields _ _ (parse_setting-Returns mutagen byte_size c.maximum_staging_file_size)
            (λ staging _.
              >>=-Yields _ _ (parse_settings-Returns mutagen probe_mode c.probe_mode) (λ probe _.
                >>=-Yields _ _ (parse_settings-Returns mutagen scan_mode c.scan_mode) (λ scan _.
                  >>=-Yields _ _ (parse_settings-Returns mutagen stage_mode c.stage_mode)
                    (λ stage _.
                      >>=-Yields _ _
                        (parse_setting-Returns mutagen symbolic_link_mode c.symbolic_link_mode)
                        (λ symlinks _.
                          >>=-Yields _ _ (parse_settings-Returns mutagen watch_mode c.watch_mode)
                            (λ watch _.
                              >>=-Yields _ _
                                (parse_setting-Returns mutagen ignore_syntax c.ignore_syntax)
                                (λ syntax _.
                                  >>=-Yields _ _
                                    (parse_vcs_mode-Returns c.ignore_vcs c.no_ignore_vcs)
                                    (λ vcs _.
                                      >>=-Yields _ _
                                        (parse_setting-Returns mutagen permissions_mode
                                          c.permissions_mode)
                                        (λ permissions _.
                                          >>=-Yields _ _
                                            (parse_modes-Returns
                                              (modes.is_file_mode
                                                (effective_permissions mutagen modes permissions))
                                              c.default_file_mode)
                                            (λ files _.
                                              >>=-Yields _ _
                                                (parse_modes-Returns
                                                  (modes.is_directory_mode (
                                                    effective_permissions mutagen modes
                                                      permissions))
                                                  c.default_directory_mode)
                                                (λ directories _.
                                                  >>=-Yields _ _ (ensure_owners-Returns c) (λ _ _.
                                                    >>=-Yields _ _ (parse_compression-Returns c)
                                                      (λ compressed _. yields tt)))))))))))))))

  sync_configurations-Returns :
      (c : CreateConfiguration) → Returns (sync_configurations mutagen modes c)
  unfolding sync_configurations
  sync_configurations-Returns c =
      >>=-Yields _ _
        (with_global-Returns mutagen c.no_global_configuration mutagen.no_configuration)
        (λ global _.
          >>=-Yields _ _ (with_files-Returns mutagen global c.configuration_files)
            (λ defaults _. >>=-Yields _ _ (parse_sync_settings-Returns c) (λ parsed _. yields tt)))

  add_labels-HasLabel :
      (label : Text)
      → Yields
          (λ labels. lookup container_id_label labels ≡ some label)
          (add_labels mutagen [] ((codes "container-id=" ++ label) ∷ []))
  unfolding add_labels label_parts cut container_id_label
  add_labels-HasLabel label =
      >>=-Yields (guard (mutagen.is_label_key (codes "container-id")) (fails bad_label_key)) _
        (guard-Returns _ bad_label_key)
        (λ _ _.
          >>=-Yields (guard (mutagen.is_label_value label) (fails bad_label_value)) _
            (guard-Returns _ bad_label_value)
            (λ _ _. yields (
              lookup-insert container_id_label container_id_label label []
              ∙ rw (text_eq_refl container_id_label) refl)))

  sync_specification-HasLabel :
      (config : TransportConfig) (id label : Text) (mount : BindMount) (prompter : Text)
      → 8 ≤ length id
      → compress_container_id id ≡ some label
      → Yields
          (λ s. lookup container_id_label s.labels ≡ some label)
          (sync_specification mutagen modes config id mount prompter)
  unfolding sync_specification create_configuration compressed_or_panic
  sync_specification-HasLabel config id label mount prompter h e =
      rw (e, sync_specification)
        (>>=-Yields _ _ (short_id-Returns id h) (λ short _.
          >>=-Yields _ _ (or_bad_url-Returns bad_source _) (λ alpha _.
            >>=-Yields _ _ (or_bad_url-Returns bad_destination _) (λ beta _.
              >>=-Yields
                (guard (mutagen.is_name (create_configuration short label mount.host_path).name)
                  (fails bad_name))
                _ (guard-Returns _ bad_name)
                (λ _ _. >>=-Yields _ _ (add_labels-HasLabel label) (λ labels has.
                  >>=-Yields _ _
                    (sync_configurations-Returns (create_configuration short label mount.host_path))
                    (λ configurations _. yields has)))))))

  module _ {ℓ} {S : Type ℓ} (sessions_of : SessionManager S)
      (create : Specification C → S → Result Text Text × S)
      (honours : HonoursLabels sessions_of create) where
    pub setup_syncs-added :
        (config : TransportConfig) (container_id prompter : Text) (m : FileSyncManager)
        (sessions : S) (states : List Session)
        → IsContainerId container_id
        → 8 ≤ length container_id
        → sessions_of.list sessions ≡ ok states
        → (label : Text) × (ids : List Text) × (left : S) × (compress_container_id container_id
            ≡ some label)
          × (setup_syncs mutagen modes create config container_id prompter (m, sessions)
              ≡ some (ids, left))
          × Adds sessions_of label states left
    unfolding setup_syncs setup_single_sync
    setup_syncs-added config id prompter m sessions states h long l =
        let (label, c, back) = decompress-compress id h.0 h.1 in
        let (ids, left, e, n, added, k) =
          setup_each-Adds sessions_of
            (λ mount. Accepted create (sync_specification mutagen modes config id mount prompter))
            label (λ mount. setup_single_sync mutagen modes create config id mount prompter)
            (λ mount s ss l.
              setup_single-Adds sessions_of create honours label _ s ss
                (sync_specification-HasLabel config id label mount prompter long c) l)
            (mounts_at (lookup id m.container_mounts)) sessions states l in
        (label, ids, left, c, e, added)

    -- Setting up the synchronizations of a Docker container id of at least eight digits and taking
    -- them down again succeeds, and afterwards the listed containers are those listed before the
    -- set-up, without that container, provided that the sessions before it carry packed container
    -- ids or no label.
    pub setup_syncs-teardown_syncs :
        HonoursSelectors sessions_of
        → (config : TransportConfig) (container_id prompter : Text) (m : FileSyncManager)
          (sessions : S) (states : List Session)
        → IsContainerId container_id
        → 8 ≤ length container_id
        → sessions_of.list sessions ≡ ok states
        → All IsLabelled states
        → (ids : List Text) × (after : S) × (left : FileSyncManager × S) × (found : Map Text Bool)
          × (setup_syncs mutagen modes create config container_id prompter (m, sessions)
              ≡ some (ids, after))
          × (teardown_syncs sessions_of container_id (m, after) ≡ some left)
          × (list_sessions sessions_of left.1 ≡ ok found)
          × ((other : Text)
              → lookup other found ≡ (
                  if text_eq container_id other then none else lookup other (container_ids states)))
    setup_syncs-teardown_syncs selects config id prompter m sessions states h long l labelled =
        let (label, ids, after, c, e, a) =
          setup_syncs-added config id prompter m sessions states h long l in
        let every =
          All-append IsLabelled states a.added labelled
            (HasLabel-IsLabelled id label a.added h c a.labelled) in
        let (left, found, t, gone, listed, looked) =
          teardown_syncs-list_sessions sessions_of selects id m after (states ++ a.added) h a.listed
            every in
        (
          ids,
          after,
          left,
          found,
          e,
          t,
          listed,
          λ other.
              looked other
              ∙ sym (lookup-container_ids id label other (states ++ a.added) h c every)
              ∙ ap (λ ss. lookup other (container_ids ss))
                  (without-append label states a.added a.labelled)
              ∙ lookup-container_ids id label other states h c labelled,
        )
