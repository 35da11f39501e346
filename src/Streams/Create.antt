-- ===== src/Streams/Create.antt =====
-- `POST /streams/` of prod/app/api/endpoints/streams.py: a new stream is stored and provisioned.
pub mod Laws
use content_fabric.Base.{
  ℕ, ◌+◌, ◌==◌, leb, ◌&&◌, ◌||◌, Bool, true, false, not, Option, none, some, List, [], ◌∷◌, ◌++◌,
  all_of, any_of, if◌then◌else◌,
}
use content_fabric.Text.{Text, text, or_blank, is_empty}
use content_fabric.Text.Decimal.{strip}
use content_fabric.Table.{fetch_one, has_key}
use content_fabric.Ingestion.Sources.{lstrip_slash}
use content_fabric.Youtube.{Outcome}
use content_fabric.Streams.Provision.{
  StreamConfig, config_id, Disk, path_join, column, provision_stream,
}
use mathlib.Core.List.{reverse}

-- the fields of the body that the row and its provisioning use
pub record StreamCreateRequest : Type 0 where
  pub name : Text
  pub service_name : Option Text
  pub workdir : Option Text
  pub stream_key : Text
  pub duration_sec : ℕ
  pub rtmp_base : Option Text
  pub rtmp_host : Option Text

pub record StreamSite : Type 0 where
  pub configs : List StreamConfig
  pub next_id : ℕ
  pub disk : Disk

-- `[A-Za-z0-9_\-]`
abbrev pub is_name_char : ℕ → Bool
is_name_char c =
    (leb b'A' c && leb c b'Z')
    || (leb b'a' c && leb c b'z')
    || (leb b'0' c && leb c b'9')
    || (c == b'_')
    || (c == b'-')

abbrev pub derive_service_name : Text → Text
derive_service_name name = text "stream-" ++ name ++ text ".service"

-- `s or default`
abbrev pub or_text : Text → Text → Text
or_text s d = if is_empty s then d else s

-- `s.rstrip("/")`
abbrev pub rstrip_slash : Text → Text
rstrip_slash s = reverse (lstrip_slash (reverse s))

abbrev pub derive_workdir : Text → Text → Text
derive_workdir streams_root name =
    path_join (or_text (rstrip_slash streams_root) (text "/var/lib/cff/streams")) name

-- A column that is missing or blank is derived.
abbrev pub or_derived : Option Text → Text → Option Text
or_derived given derived = if is_empty (column given) then some derived else given

abbrev pub new_config : Text → ℕ → Text → StreamCreateRequest → StreamConfig
new_config streams_root id name body = record {
  id = id;
  name = some name;
  service_name = or_derived body.service_name (derive_service_name name);
  workdir = or_derived body.workdir (derive_workdir streams_root name);
  stream_key = some body.stream_key;
  duration_sec = some body.duration_sec;
  rtmp_base = body.rtmp_base;
  rtmp_host = body.rtmp_host;
  enabled = true;
}

-- The reply: a status code, or the id with what provisioning gave.
pub data CreateReply : Type 0 where
  http_error : ℕ → CreateReply
  stored : ℕ → Outcome Text → CreateReply

abbrev pub provision_found : ℕ → StreamSite → Option StreamConfig → CreateReply × StreamSite
provision_found id site none = (http_error 500, site)
provision_found id site (some s) =
    let (outcome, disk) = provision_stream s true site.disk in
    (stored id outcome, record site { disk = disk })

abbrev pub with_config : StreamConfig → StreamSite → StreamSite
with_config s site = record {
  configs = site.configs ++ s ∷ [];
  next_id = site.next_id + 1;
  disk = site.disk;
}

abbrev pub service_of : StreamConfig → Text
service_of s = or_blank s.service_name

-- The INSERT: `none` is the IntegrityError of the unique key on the service name. The collation of
-- the table says which names are equal.
abbrev pub store_config : (Text → Text → Bool) → StreamConfig → StreamSite → Option StreamSite
store_config same s site =
    if any_of (λ t. same (service_of t) (service_of s)) site.configs
    then none
    else some (with_config s site)

-- `_fetch_stream(new_id)`, and what follows it; no handler catches the IntegrityError
abbrev pub after_store : StreamConfig → StreamSite → Option StreamSite → CreateReply × StreamSite
after_store s site none = (http_error 500, site)
after_store s site (some site') =
    provision_found s.id site' (fetch_one (has_key config_id s.id) site'.configs)

abbrev pub store_and_provision :
    (Text → Text → Bool) → StreamConfig → StreamSite → CreateReply × StreamSite
store_and_provision same s site = after_store s site (store_config same s site)

unfoldable pub create_stream :
    (Text → Text → Bool) → Text → StreamCreateRequest → StreamSite → CreateReply × StreamSite
create_stream same streams_root body site =
    let name = strip body.name in
    if is_empty name
    then (http_error 422, site)
    else if not (all_of is_name_char name)
    then (http_error 422, site)
    else if is_empty (strip body.stream_key)
    then (http_error 422, site)
    else store_and_provision same (new_config streams_root site.next_id name body) site
