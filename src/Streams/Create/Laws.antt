-- ===== src/Streams/Create/Laws.antt =====
-- A stream that is accepted is always provisioned.
use content_fabric.Base.{
  ℕ, ◌<◌, ◌||◌, ◌&&◌, not, true, false, Option, some, ◌≡◌, refl, sym, ap, ◌∙◌, inl, inr, ◌⊎◌, [],
  ◌∷◌, ◌++◌, All, all_of, any_of, Bool, Bool-cases, arith,
}
use mathlib.Core.Bool.{true≢false}
use content_fabric.Text.{Text, text, is_empty, starts_with}
use content_fabric.Text.Decimal.{strip, is_space}
use content_fabric.Text.Strip.{letters, letters-append, letters-strip}
use content_fabric.Table.{fetch_one-snoc}
use content_fabric.Youtube.{returned}
use content_fabric.Streams.Provision.{
  StreamConfig, config_id, path_join, ends_with, column, lacks_field,
}
use content_fabric.Streams.Provision.Files.{Writes}
use content_fabric.Streams.Provision.Laws.{unit_of, provision_stream-EndsProvisioned}
use content_fabric.Streams.Create.{
  StreamCreateRequest, StreamSite, is_name_char, derive_service_name, derive_workdir, or_derived,
  or_text, new_config, rstrip_slash, service_of, with_config, after_store, CreateReply, http_error,
  stored, store_and_provision, create_stream,
}

-- some character is no white space
abbrev IsFilled : Text → Type 0
IsFilled s = is_empty (letters s) ≡ false

is_empty-append : (s t : Text) → is_empty t ≡ false → is_empty (s ++ t) ≡ false
is_empty-append [] t h = h
is_empty-append (c ∷ s) t h = refl

IsFilled-append : (a b : Text) → IsFilled b → IsFilled (a ++ b)
IsFilled-append a b h = rw (letters-append a b) (is_empty-append (letters a) (letters b) h)

is_empty_of_letters : (t : Text) → IsFilled t → is_empty t ≡ false
is_empty_of_letters [] h = h
is_empty_of_letters (c ∷ t) h = refl

strip-IsFilled : (s : Text) → IsFilled s → is_empty (strip s) ≡ false
strip-IsFilled s h = is_empty_of_letters (strip s) (rw (sym (letters-strip s)) at h)

name_char-IsFilled : (c : ℕ) (s : Text) → is_name_char c ≡ true → IsFilled (c ∷ s)
name_char-IsFilled c s k = let visible : is_space c ≡ false = ground arith in rw visible refl

name-IsFilled : (s : Text) → is_empty s ≡ false → all_of is_name_char s ≡ true → IsFilled s
name-IsFilled [] h k = cc
name-IsFilled (c ∷ s) h k = name_char-IsFilled c s (ground arith)

IsFilled-path_join : (a b : Text) → IsFilled b → IsFilled (path_join a b)
unfolding path_join
IsFilled-path_join a b h = elim (Bool-cases (starts_with (text "/") b)) [
  | inl absolute ↦ rw absolute h
  | inr relative ↦ elim (Bool-cases (is_empty a || ends_with (text "/") a)) [
    | inl closed ↦ rw (relative, closed) (IsFilled-append a b h)
    | inr loose ↦ rw (relative, loose) (IsFilled-append (a ++ text "/") b h)
  ]
]

IsFilled-or_derived :
    (given : Option Text) (derived : Text)
    → IsFilled derived
    → is_empty (column (or_derived given derived)) ≡ false
IsFilled-or_derived given derived h = elim (Bool-cases (is_empty (column given))) [
  | inl blank ↦ rw blank (strip-IsFilled derived h)
  | inr there ↦ rw there there
]

new_config_complete :
    (streams_root : Text) (id : ℕ) (name : Text) (body : StreamCreateRequest)
    → is_empty name ≡ false
    → all_of is_name_char name ≡ true
    → is_empty (strip body.stream_key) ≡ false
    → lacks_field (new_config streams_root id name body) ≡ false
new_config_complete streams_root id name body h k key =
    let filled = name-IsFilled name h k in
    let service =
      IsFilled-or_derived body.service_name (derive_service_name name)
        (IsFilled-append (text "stream-" ++ name) (text ".service") refl) in
    let workdir = IsFilled-or_derived body.workdir (derive_workdir streams_root name) (
      IsFilled-path_join (or_text (rstrip_slash streams_root) (text "/var/lib/cff/streams")) name
        filled) in
    rw (strip-IsFilled name filled, service, workdir, key) refl

-- A name of letters, digits, hyphens and underscores, and a key.
abbrev pub is_accepted : StreamCreateRequest → Bool
is_accepted body =
    not (is_empty (strip body.name))
    && all_of is_name_char (strip body.name)
    && not (is_empty (strip body.stream_key))

-- Refused with 422, or with 500 as a stream has the service name, and nothing written; or stored as
-- a last, enabled row with a service name that no stream had, whose files are written and whose
-- unit is the answer.
abbrev pub EndsCreated :
    (Text → Text → Bool)
    → Text
    → StreamCreateRequest
    → StreamSite
    → CreateReply × StreamSite
    → Type 0
EndsCreated same streams_root body site (reply, site') =
    let s = new_config streams_root site.next_id (strip body.name) body in
    let is_used = any_of (λ t. same (service_of t) (service_of s)) site.configs in
    ((is_accepted body ≡ false) × (reply ≡ http_error 422) × (site' ≡ site))
    ⊎ ((is_accepted body ≡ true) × (is_used ≡ true) × (reply ≡ http_error 500) × (site' ≡ site))
    ⊎ ((is_accepted body ≡ true)
        × (is_used ≡ false)
        × (reply ≡ stored s.id (returned (unit_of s)))
        × (site'.configs ≡ site.configs ++ s ∷ [])
        × Writes s site.disk site'.disk)

module _ (same : Text → Text → Bool) (site : StreamSite)
    (below : All (λ s. s.id < site.next_id) site.configs) where
  provision_found_lem :
      (s : StreamConfig)
      → s.id ≡ site.next_id
      → lacks_field s ≡ false
      → let (reply, site') = after_store s site (some (with_config s site)) in
        (reply ≡ stored s.id (returned (unit_of s)))
        × (site'.configs ≡ site.configs ++ s ∷ [])
        × Writes s site.disk site'.disk
  provision_found_lem s e complete =
      let found = fetch_one-snoc config_id s.id site.configs s refl (rw (sym e) at below) in
      rw found (elim (provision_stream-EndsProvisioned s true true site.disk) [
        | inl (lacking, result) ↦ absurd (true≢false (sym lacking ∙ complete))
        | inr (_, answer, writes, again) ↦ (ap (stored s.id) answer, refl, writes)
      ])

  store_and_provision-EndsCreated :
      (streams_root : Text) (body : StreamCreateRequest)
      → (let s = new_config streams_root site.next_id (strip body.name) body in
          lacks_field s ≡ false
          → is_accepted body ≡ true
          → EndsCreated same streams_root body site (store_and_provision same s site))
  store_and_provision-EndsCreated streams_root body complete ok_body =
      let s = new_config streams_root site.next_id (strip body.name) body in
      elim (Bool-cases (any_of (λ t. same (service_of t) (service_of s)) site.configs)) [
        | inl clash ↦ rw clash (inr (inl (ok_body, refl, refl, refl)))
        | inr free ↦
            let done = provision_found_lem s refl complete in
            rw free (inr (inr (ok_body, refl, done.0, done.1, done.2)))
      ]

  -- When the next id is above all ids, a request to create a stream whose name or key is not
  -- accepted is refused with 422 and writes nothing. Any other is refused with 500 and writes
  -- nothing when some stream has its service name; when none has, one last row is added, enabled,
  -- and provisioned, with whatever service name, directory and root.
  pub create_stream-EndsCreated :
      (streams_root : Text) (body : StreamCreateRequest)
      → EndsCreated same streams_root body site (create_stream same streams_root body site)
  unfolding create_stream
  create_stream-EndsCreated streams_root body =
      let name = strip body.name in
      elim (Bool-cases (is_empty name)) [
        | inl nameless ↦ rw nameless (inl (refl, refl, refl))
        | inr named ↦ elim (Bool-cases (all_of is_name_char name)) [
          | inr odd ↦ rw (named, odd) (inl (refl, refl, refl))
          | inl plain ↦ elim (Bool-cases (is_empty (strip body.stream_key))) [
            | inl keyless ↦ rw (named, plain, keyless) (inl (refl, refl, refl))
            | inr key ↦
                let accepted : is_accepted body ≡ true = rw (named, plain, key) refl in
                let complete =
                  new_config_complete streams_root site.next_id name body named plain key in
                let done = store_and_provision-EndsCreated streams_root body complete accepted in
                rw (named, plain, key) (rw (named, plain, key) at done)
          ]
        ]
      ]
