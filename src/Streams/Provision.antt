-- ===== src/Streams/Provision.antt =====
-- prod/shared/streams/provisioner.py: the files on disk that run a stream, and the handlers of
-- prod/app/api/endpoints/streams.py that write them. Errors of the file system are left out, and so
-- are the parents that makedirs creates.
pub mod Render
pub mod Files
pub mod Laws
use content_fabric.Base.{
  ℕ, zero, suc, ◌+◌, ◌-◌, ◌==◌, ◌||◌, Bool, true, false, not, Option, none, some, is_some, List, [],
  ◌∷◌, ◌++◌, length, keep, if◌then◌else◌,
}
use content_fabric.Text.{Text, text, text_eq, or_blank, is_empty, is_blank, starts_with}
use content_fabric.Text.Decimal.{decimal, strip}
use content_fabric.Text.Split.{split}
use content_fabric.Table.{fetch_one, has_key}
use content_fabric.Table.Order.{order_by, ascending}
use content_fabric.Youtube.{Outcome, returned, raised}
use content_fabric.Streams.Provision.Render.{yt_stream_runner, render_env_file, render_systemd_unit}
use mathlib.Core.List.{reverse}

-- the columns of `live_stream_configurations` that provisioning reads
pub record StreamConfig : Type 0 where
  pub id : ℕ
  pub name : Option Text
  pub service_name : Option Text
  pub workdir : Option Text
  pub stream_key : Option Text
  pub duration_sec : Option ℕ
  pub rtmp_base : Option Text
  pub rtmp_host : Option Text
  pub enabled : Bool

abbrev pub config_id : StreamConfig → ℕ
config_id s = s.id

pub record File : Type 0 where
  pub content : Text
  pub mode : ℕ

pub data Control : Type 0 where
  daemon_reload : Control
  reset_failed : Text → Control

-- The files by their paths, the directories with their modes, and the calls of systemctl, the
-- latest first.
pub record Disk : Type 0 where
  pub files : Text → Option File
  pub dirs : Text → Option ℕ
  pub controls : List Control

-- a store with a value at one path
abbrev pub put_at {ℓ} : {A : Type ℓ} → Text → A → (Text → Option A) → Text → Option A
put_at path value store q = if text_eq q path then some value else store q

abbrev pub write_file : Text → Text → ℕ → Disk → Disk
write_file path content mode disk = record disk {
  files = put_at path (record { content = content; mode = mode }) disk.files;
}

abbrev pub ensure_dir : Text → Disk → Disk
ensure_dir path disk = record disk { dirs = put_at path 509 disk.dirs }

-- `s.endswith(suffix)`
unfoldable pub ends_with : Text → Text → Bool
ends_with suffix s = starts_with (reverse suffix) (reverse s)

-- `os.path.join`
unfoldable pub path_join : Text → Text → Text
path_join a b =
    if starts_with (text "/") b
    then b
    else if is_empty a || ends_with (text "/") a
    then a ++ b
    else a ++ text "/" ++ b

-- `s.replace(needle, "")`, while `skip` characters of an occurrence are passed over
unfoldable pub remove_all : Text → ℕ → Text → Text
remove_all needle skip [] = []
remove_all needle (suc skip) (c ∷ s) = remove_all needle skip s
remove_all needle zero (c ∷ s) =
    if starts_with needle (c ∷ s)
    then remove_all needle (length needle - 1) s
    else c ∷ remove_all needle 0 s

-- `s.split("/", 1)[0]`
unfoldable pub before_slash : Text → Text
before_slash [] = []
before_slash (c ∷ s) = if c == b'/' then [] else c ∷ before_slash s

unfoldable pub normalize_rtmp_host : Option Text → Option Text → Text
normalize_rtmp_host rtmp_base rtmp_host =
    if not (is_blank rtmp_host)
    then strip (or_blank rtmp_host)
    else if not (is_blank rtmp_base)
    then before_slash
        (remove_all (text "rtmps://") 0 (remove_all (text "rtmp://") 0 (or_blank rtmp_base)))
    else text "a.rtmp.youtube.com"

-- `(stream.get(key) or "").strip()`
abbrev pub column : Option Text → Text
column s = strip (or_blank s)

-- `stream.get("duration_sec") or 42900`
abbrev pub duration_of : Option ℕ → ℕ
duration_of none = 42900
duration_of (some d) = if d == 0 then 42900 else d

abbrev pub unit_full_name : Text → Text
unit_full_name service_name =
    if ends_with (text ".service") service_name
    then service_name
    else service_name ++ text ".service"

module _ (s : StreamConfig) where
  abbrev pub videos_dir : Text
  videos_dir = path_join (column s.workdir) (text "videos")

  abbrev pub playlist_path : Text
  playlist_path = path_join videos_dir (text "playlist.txt")

  abbrev pub runner_path : Text
  runner_path = path_join (column s.workdir) (text "yt_stream_runner.sh")

  abbrev pub env_path : Text
  env_path = path_join (text "/etc/aiyoutube/streams") (column s.name ++ text ".env")

  abbrev pub unit_path : Text
  unit_path = path_join (text "/etc/systemd/system") (unit_full_name (column s.service_name))

  abbrev pub env_content : Text
  env_content =
      render_env_file (column s.name) (column s.stream_key) videos_dir
        (normalize_rtmp_host s.rtmp_base s.rtmp_host) (duration_of s.duration_sec)

  abbrev pub unit_content : Text
  unit_content = render_systemd_unit (column s.name) (column s.workdir) env_path runner_path

  -- an empty playlist if there is none
  abbrev pub ensure_playlist : Disk → Disk
  ensure_playlist disk =
      if is_some (disk.files playlist_path) then disk else write_file playlist_path [] 436 disk

  unfoldable pub write_all : Disk → Disk
  write_all disk = write_file unit_path unit_content 420 (
      write_file env_path env_content 384 (
        write_file runner_path yt_stream_runner 493
          (ensure_playlist (ensure_dir videos_dir (ensure_dir (column s.workdir) disk)))))

  abbrev pub reload : Bool → Disk → Disk
  reload true disk = record disk {
    controls =
        reset_failed (unit_full_name (column s.service_name)) ∷ daemon_reload ∷ disk.controls;
  }
  reload false disk = disk

  -- whether a field that is needed is empty
  abbrev pub lacks_field : Bool
  lacks_field =
      is_empty (column s.name)
      || is_empty (column s.service_name)
      || is_empty (column s.workdir)
      || is_empty (column s.stream_key)

  abbrev pub lack_error : Text
  lack_error =
      if is_empty (column s.name) || is_empty (column s.service_name) || is_empty (column s.workdir)
      then text "Stream #"
        ++ decimal s.id
        ++ text ": missing required fields name/service_name/workdir"
      else text "Stream #" ++ decimal s.id ++ text ": empty stream_key"

  -- The result names the unit; the paths that it shows as well are those above.
  unfoldable pub provision_stream : Bool → Disk → Outcome Text × Disk
  provision_stream reload_systemd disk = if lacks_field then (raised lack_error, disk) else (
    returned (unit_full_name (column s.service_name)),
    reload reload_systemd (write_all disk),
  )

pub record SyncReport : Type 0 where
  pub synced : List Text
  pub failures : List (ℕ × Text)

abbrev pub counted : StreamConfig → Outcome Text → SyncReport → SyncReport
counted s (returned unit) report = record report { synced = report.synced ++ unit ∷ [] }
counted s (raised error) report = record report { failures = report.failures ++ (s.id, error) ∷ [] }

-- the loop of `provision_all`
unfoldable pub provision_each : List StreamConfig → SyncReport × Disk → SyncReport × Disk
provision_each [] state = state
provision_each (s ∷ streams) (report, disk) =
    let (outcome, disk') = provision_stream s false disk in
    provision_each streams (counted s outcome report, disk')

abbrev pub reload_once : SyncReport × Disk → SyncReport × Disk
reload_once (report, disk) = (report, record disk { controls = daemon_reload ∷ disk.controls })

unfoldable pub provision_all : List StreamConfig → Disk → SyncReport × Disk
provision_all streams disk =
    reload_once (provision_each streams (record { synced = []; failures = [] }, disk))

-- `POST /sync-all`
unfoldable pub sync_all : List StreamConfig → Disk → SyncReport × Disk
sync_all rows disk =
    provision_all (order_by (ascending config_id) (keep (λ s. s.enabled) rows)) disk

abbrev pub sync_found : Option StreamConfig → Disk → Outcome Text × Disk
sync_found none disk = (raised (text "Not found"), disk)
sync_found (some s) disk = provision_stream s true disk

-- `POST /sync`, whose reply shows an exception as its error
unfoldable pub sync_one : List StreamConfig → ℕ → Disk → Outcome Text × Disk
sync_one rows k disk = sync_found (fetch_one (has_key config_id k) rows) disk
