-- ===== src/Streams/Provision/Files.antt =====
-- The four files of a stream have different paths, whatever the columns hold, as their names end
-- differently; and what is on the disk after they are written.
use content_fabric.Base.{
  ℕ, ◌||◌, Bool, true, false, some, or_else, Option-cases, ◌≡◌, ◌≢◌, refl, sym, ap, ◌∙◌, inl, inr,
  [], ◌∷◌, ◌++◌, Bool-cases, arith,
}
use content_fabric.Text.{Text, text, text_eq, text_eq_refl, text_eq→eq, starts_with, is_empty}
use content_fabric.Streams.Provision.{
  StreamConfig, File, Disk, ensure_dir, ends_with, path_join, column, unit_full_name, videos_dir,
  playlist_path, runner_path, env_path, unit_path, env_content, unit_content, ensure_playlist,
  write_all,
}
use content_fabric.Streams.Provision.Render.{yt_stream_runner}
use mathlib.Core.List.{reverse, reverse-append}
use mathlib.Core.Path.{fun_ext}

-- the last character
abbrev LastIs : ℕ → Text → Type 0
LastIs c s = (rest : Text) × (reverse s ≡ c ∷ rest)

LastIs-append : (c : ℕ) (a b : Text) → LastIs c b → LastIs c (a ++ b)
LastIs-append c a b (rest, e) = (rest ++ reverse a, reverse-append a b ∙ ap (λ r. r ++ reverse a) e)

LastIs-path_join : (c : ℕ) (a b : Text) → LastIs c b → LastIs c (path_join a b)
unfolding path_join
LastIs-path_join c a b h = elim (Bool-cases (starts_with (text "/") b)) [
  | inl absolute ↦ rw absolute h
  | inr relative ↦ elim (Bool-cases (is_empty a || ends_with (text "/") a)) [
    | inl closed ↦ rw (relative, closed) (LastIs-append c a b h)
    | inr loose ↦ rw (relative, loose) (LastIs-append c (a ++ text "/") b h)
  ]
]

LastIs-starts_with :
    (c : ℕ) (needle s : Text) → starts_with (c ∷ needle) s ≡ true → (rest : Text) × (s ≡ c ∷ rest)
unfolding starts_with
LastIs-starts_with c needle [] h = cc
LastIs-starts_with c needle (d ∷ s) h = (s, ground arith)

LastIs-unit_full_name : (s : Text) → LastIs b'e' (unit_full_name s)
unfolding ends_with
LastIs-unit_full_name s = elim (Bool-cases (ends_with (text ".service") s)) [
  | inl whole ↦ rw whole (LastIs-starts_with b'e' (text "civres.") (reverse s) whole)
  | inr short ↦ rw short (LastIs-append b'e' s (text ".service") (text "civres.", refl))
]

other_path : (c d : ℕ) (p q : Text) → c ≢ d → LastIs c p → LastIs d q → text_eq p q ≡ false
other_path c d p q ne (a, e) (b, f) = elim (Bool-cases (text_eq p q)) [
  | inl same ↦ let whole = text_eq→eq p q same in absurd (ne cc)
  | inr other ↦ other
]

module _ (s : StreamConfig) where
  playlist_ends : LastIs b't' (playlist_path s)
  playlist_ends =
      LastIs-path_join b't' (videos_dir s) (text "playlist.txt") (text "xt.tsilyalp", refl)

  runner_ends : LastIs b'h' (runner_path s)
  runner_ends =
      LastIs-path_join b'h' (column s.workdir) (text "yt_stream_runner.sh")
        (text "s.rennur_maerts_ty", refl)

  env_ends : LastIs b'v' (env_path s)
  env_ends =
      LastIs-path_join b'v' (text "/etc/aiyoutube/streams") (column s.name ++ text ".env")
        (LastIs-append b'v' (column s.name) (text ".env") (text "ne.", refl))

  unit_ends : LastIs b'e' (unit_path s)
  unit_ends =
      LastIs-path_join b'e' (text "/etc/systemd/system") (unit_full_name (column s.service_name))
        (LastIs-unit_full_name (column s.service_name))

  abbrev pub unit_file : File
  unit_file = record { content = unit_content s; mode = 420 }

  abbrev pub env_file : File
  env_file = record { content = env_content s; mode = 384 }

  abbrev pub runner_file : File
  runner_file = record { content = yt_stream_runner; mode = 493 }

  abbrev pub empty_playlist : File
  empty_playlist = record { content = []; mode = 436 }

  abbrev pub is_own : Text → Bool
  is_own q =
      text_eq q (unit_path s)
      || text_eq q (env_path s)
      || text_eq q (runner_path s)
      || text_eq q (playlist_path s)

  -- The unit, the settings and the runner are as rendered, a playlist that was there stays, and all
  -- other files are as before.
  abbrev pub Writes : Disk → Disk → Type 0
  Writes disk disk' =
      (disk'.files (unit_path s) ≡ some unit_file)
      × (disk'.files (env_path s) ≡ some env_file)
      × (disk'.files (runner_path s) ≡ some runner_file)
      × (disk'.files (playlist_path s)
          ≡ some (or_else (disk.files (playlist_path s)) empty_playlist))
      × ((q : Text) → is_own q ≡ false → disk'.files q ≡ disk.files q)

  own_parts :
      (q : Text)
      → is_own q ≡ false
      → (text_eq q (unit_path s) ≡ false)
        × (text_eq q (env_path s) ≡ false)
        × (text_eq q (runner_path s) ≡ false)
        × (text_eq q (playlist_path s) ≡ false)
  own_parts q h = (ground arith, ground arith, ground arith, ground arith)

  ensure_playlist-at :
      (disk : Disk)
      → (ensure_playlist s disk).files (playlist_path s)
        ≡ some (or_else (disk.files (playlist_path s)) empty_playlist)
  ensure_playlist-at disk = elim (Option-cases (disk.files (playlist_path s))) [
    | inl missing ↦ rw (missing, text_eq_refl (playlist_path s)) refl
    | inr (file, there) ↦ rw there there
  ]

  ensure_playlist-other :
      (disk : Disk) (q : Text)
      → text_eq q (playlist_path s) ≡ false
      → (ensure_playlist s disk).files q ≡ disk.files q
  ensure_playlist-other disk q h = elim (Option-cases (disk.files (playlist_path s))) [
    | inl missing ↦ rw (missing, h) refl
    | inr (file, there) ↦ rw there refl
  ]

  pub write_all-Writes : (disk : Disk) → Writes disk (write_all s disk)
  unfolding write_all
  write_all-Writes disk =
      let before = ensure_dir (videos_dir s) (ensure_dir (column s.workdir) disk) in
      let env_unit =
        other_path b'v' b'e' (env_path s) (unit_path s) (omega arith) env_ends unit_ends in
      let runner_unit =
        other_path b'h' b'e' (runner_path s) (unit_path s) (omega arith) runner_ends unit_ends in
      let runner_env =
        other_path b'h' b'v' (runner_path s) (env_path s) (omega arith) runner_ends env_ends in
      let list_unit =
        other_path b't' b'e' (playlist_path s) (unit_path s) (omega arith) playlist_ends
          unit_ends in
      let list_env =
        other_path b't' b'v' (playlist_path s) (env_path s) (omega arith) playlist_ends env_ends in
      let list_runner =
        other_path b't' b'h' (playlist_path s) (runner_path s) (omega arith) playlist_ends
          runner_ends in
      (
        rw (text_eq_refl (unit_path s)) refl,
        rw (env_unit, text_eq_refl (env_path s)) refl,
        rw (runner_unit, runner_env, text_eq_refl (runner_path s)) refl,
        rw (list_unit, list_env, list_runner) (ensure_playlist-at before),
        λ q h.
            let (not_unit, not_env, not_runner, not_list) = own_parts q h in
            rw (not_unit, not_env, not_runner) (ensure_playlist-other before q not_list),
      )

  -- Writing the files again changes no file.
  pub Writes-twice : (d0 d1 d2 : Disk) → Writes d0 d1 → Writes d1 d2 → d2.files ≡ d1.files
  Writes-twice d0 d1 d2 (u1, e1, r1, p1, o1) (u2, e2, r2, p2, o2) = fun_ext (λ q.
      elim (Bool-cases (text_eq q (unit_path s))) [
        | inl unit ↦ rw (text_eq→eq q (unit_path s) unit) (u2 ∙ sym u1)
        | inr not_unit ↦ elim (Bool-cases (text_eq q (env_path s))) [
          | inl env ↦ rw (text_eq→eq q (env_path s) env) (e2 ∙ sym e1)
          | inr not_env ↦ elim (Bool-cases (text_eq q (runner_path s))) [
            | inl runner ↦ rw (text_eq→eq q (runner_path s) runner) (r2 ∙ sym r1)
            | inr not_runner ↦ elim (Bool-cases (text_eq q (playlist_path s))) [
              | inl playlist ↦
                  rw (text_eq→eq q (playlist_path s) playlist)
                    (p2 ∙ ap (λ f. some (or_else f empty_playlist)) p1 ∙ sym p1)
              | inr not_playlist ↦ o2 q (rw (not_unit, not_env, not_runner, not_playlist) refl)
            ]
          ]
        ]
      ])
