-- ===== src/Streams/Provision/Laws.antt =====
-- What provisioning does to the disk, for one stream and for all.
use content_fabric.Base.{
  ℕ, ◌+◌, Bool, true, false, not, ◌≡◌, refl, ap, ◌∙◌, inl, inr, ◌⊎◌, List, [], ◌∷◌, ◌++◌, map,
  length, length-map, keep, Bool-cases, Option-cases, arith,
}
use content_fabric.Text.{Text}
use content_fabric.Youtube.{Outcome, returned, raised}
use content_fabric.Streams.Provision.{
  StreamConfig, Disk, daemon_reload, column, unit_full_name, write_all, reload, lacks_field,
  lack_error, provision_stream, SyncReport, provision_each, provision_all, counted, ensure_playlist,
  ensure_dir, videos_dir, playlist_path,
}
use content_fabric.Streams.Provision.Files.{Writes, write_all-Writes, Writes-twice}
use mathlib.Core.List.{append-nil, append_assoc}

abbrev pub unit_of : StreamConfig → Text
unit_of s = unit_full_name (column s.service_name)

-- A stream with an empty field is refused and nothing is written. Any other has its files written and
-- its unit reset if asked, and provisioning it again changes no file.
abbrev pub EndsProvisioned : StreamConfig → Bool → Disk → Outcome Text × Disk → Type 0
EndsProvisioned s again disk result =
    ((lacks_field s ≡ true) × (result ≡ (raised (lack_error s), disk)))
    ⊎ ((lacks_field s ≡ false)
        × (result.0 ≡ returned (unit_of s))
        × Writes s disk result.1
        × ((provision_stream s again result.1).1.files ≡ result.1.files))

module _ (s : StreamConfig) where
  files-reload : (on : Bool) (disk : Disk) → (reload s on disk).files ≡ disk.files
  files-reload true disk = refl
  files-reload false disk = refl

  Writes-reload :
      (on : Bool) (before disk : Disk) → Writes s before disk → Writes s before (reload s on disk)
  Writes-reload true before disk h = h
  Writes-reload false before disk h = h

  -- Every stream ends provisioned, or is refused with the disk as it was; provisioning is
  -- idempotent on files, with or without the reload.
  pub provision_stream-EndsProvisioned :
      (on again : Bool) (disk : Disk) → EndsProvisioned s again disk (provision_stream s on disk)
  unfolding provision_stream
  provision_stream-EndsProvisioned on again disk = elim (Bool-cases (lacks_field s)) [
    | inl lacking ↦ rw lacking (inl (refl, refl))
    | inr complete ↦
        let once = reload s on (write_all s disk) in
        let first = Writes-reload on disk (write_all s disk) (write_all-Writes s disk) in
        rw complete (
          inr (
            refl,
            refl,
            first,
            files-reload again (write_all s once)
                ∙ Writes-twice s disk once (write_all s once) first (write_all-Writes s once),
          ))
  ]

abbrev pub is_complete : StreamConfig → Bool
is_complete s = not (lacks_field s)

abbrev pub failure_of : StreamConfig → ℕ × Text
failure_of s = (s.id, lack_error s)

-- the files of one stream after the other
abbrev pub written : List StreamConfig → Disk → Disk
written [] disk = disk
written (s ∷ streams) disk = written streams (write_all s disk)

abbrev report_of : List StreamConfig → SyncReport → SyncReport
report_of streams report = record {
  synced = report.synced ++ map unit_of (keep is_complete streams);
  failures = report.failures ++ map failure_of (keep lacks_field streams);
}

provision_each_lem :
    (streams : List StreamConfig) (report : SyncReport) (disk : Disk)
    → provision_each streams (report, disk)
      ≡ (report_of streams report, written (keep is_complete streams) disk)
unfolding provision_each provision_stream
provision_each_lem [] report disk = rw (append-nil report.synced, append-nil report.failures) refl
provision_each_lem (s ∷ streams) report disk = elim (Bool-cases (lacks_field s)) [
  | inl lacking ↦ rw lacking (
      provision_each_lem streams (counted s (raised (lack_error s)) report) disk
      ∙ rw
          (append_assoc report.failures (failure_of s ∷ [])
            (map failure_of (keep lacks_field streams)))
          refl)
  | inr complete ↦ rw complete (
      provision_each_lem streams (counted s (returned (unit_of s)) report) (write_all s disk)
      ∙ rw (append_assoc report.synced (unit_of s ∷ []) (map unit_of (keep is_complete streams)))
          refl)
]

keep_parts :
    (streams : List StreamConfig)
    → length (keep is_complete streams) + length (keep lacks_field streams) ≡ length streams
keep_parts [] = omega arith
keep_parts (s ∷ streams) = elim (Bool-cases (lacks_field s)) [
  | inl lacking ↦ rw lacking (omega (arith, keep_parts streams))
  | inr complete ↦ rw complete (omega (arith, keep_parts streams))
]

-- What provisioning all streams gives: the units of the complete streams and the errors of the
-- others, both in order, each stream once; the files as the complete streams leave them one after
-- the other; and one reload, after them.
abbrev pub IsSynced : List StreamConfig → Disk → SyncReport × Disk → Type 0
IsSynced streams disk (report, disk') =
    (report.synced ≡ map unit_of (keep is_complete streams))
    × (report.failures ≡ map failure_of (keep lacks_field streams))
    × (length report.synced + length report.failures ≡ length streams)
    × (disk'.files ≡ (written (keep is_complete streams) disk).files)
    × (disk'.controls ≡ daemon_reload ∷ disk.controls)

controls-ensure_playlist :
    (s : StreamConfig) (disk : Disk) → (ensure_playlist s disk).controls ≡ disk.controls
controls-ensure_playlist s disk = elim (Option-cases (disk.files (playlist_path s))) [
  | inl missing ↦ rw missing refl
  | inr (file, there) ↦ rw there refl
]

controls-written :
    (streams : List StreamConfig) (disk : Disk) → (written streams disk).controls ≡ disk.controls
unfolding write_all
controls-written [] disk = refl
controls-written (s ∷ streams) disk =
    controls-written streams (write_all s disk)
    ∙ controls-ensure_playlist s (ensure_dir (videos_dir s) (ensure_dir (column s.workdir) disk))

-- Whatever the streams and the disk, provisioning all gives that.
pub provision_all-IsSynced :
    (streams : List StreamConfig) (disk : Disk) → IsSynced streams disk (provision_all streams disk)
unfolding provision_all
provision_all-IsSynced streams disk =
    let whole = provision_each_lem streams (record { synced = []; failures = [] }) disk in
    rw whole (
      refl,
      refl,
      omega (
        arith,
        keep_parts streams,
        length-map unit_of (keep is_complete streams),
        length-map failure_of (keep lacks_field streams),
      ),
      refl,
      ap (λ cs. daemon_reload ∷ cs) (controls-written (keep is_complete streams) disk),
    )
