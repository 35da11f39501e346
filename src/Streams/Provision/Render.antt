-- ===== src/Streams/Provision/Render.antt =====
-- prod/shared/streams/runner_template.py: the texts of the files that feed a stream.
use content_fabric.Base.{ℕ, List, [], ◌∷◌, ◌++◌}
use content_fabric.Text.{Text, text}
use content_fabric.Text.Decimal.{decimal}

-- Every line ends in a newline.
abbrev pub lines : List Text → Text
lines [] = []
lines (line ∷ rest) = line ++ (10 ∷ lines rest)

-- `YT_STREAM_RUNNER`
unfoldable pub yt_stream_runner : Text
yt_stream_runner = lines (
    text "#!/usr/bin/env bash"
    ∷ text "set -euo pipefail"
    ∷ text "export LC_ALL=C"
    ∷ text ""
    ∷ text "STREAM_NAME=\"${STREAM_NAME:-stream}\""
    ∷ text "STREAM_KEY=\"${STREAM_KEY:-}\""
    ∷ text "INPUT_DIR=\"${INPUT_DIR:-}\""
    ∷ text "RTMP_HOST=\"${RTMP_HOST:-a.rtmp.youtube.com}\""
    ∷ text "RUNTIME_MAX=\"${RUNTIME_MAX:-42900}\""
    ∷ text ""
    ∷ text "if [[ -z \"$STREAM_KEY\" || -z \"$INPUT_DIR\" ]]; then"
    ∷ text "  echo \"ERROR: STREAM_KEY or INPUT_DIR is empty\""
    ∷ text "  exit 2"
    ∷ text "fi"
    ∷ text ""
    ∷ text "PLAYLIST=\"$INPUT_DIR/playlist.txt\""
    ∷ text "RTMP_URL=\"rtmp://${RTMP_HOST}/live2/${STREAM_KEY}\""
    ∷ text ""
    ∷ text "echo \"== ${STREAM_NAME} ==\""
    ∷ text "echo \"STREAM_KEY: ${STREAM_KEY:0:6}***\""
    ∷ text "echo \"INPUT_DIR:  ${INPUT_DIR}\""
    ∷ text "echo \"RTMP_HOST:  ${RTMP_HOST}\""
    ∷ text "echo \"RUNTIME:    ${RUNTIME_MAX}\""
    ∷ text ""
    ∷ text "mkdir -p \"$INPUT_DIR\""
    ∷ text "cd \"$INPUT_DIR\""
    ∷ text ""
    ∷ text "shopt -s nullglob"
    ∷ text ": > \"$PLAYLIST\""
    ∷ text "for f in $(ls -1 *.mp4 2>/dev/null | sort); do"
    ∷ text "  echo \"file '${PWD}/${f}'\" >> \"$PLAYLIST\""
    ∷ text "done"
    ∷ text ""
    ∷ text "if [[ ! -s \"$PLAYLIST\" ]]; then"
    ∷ text "  echo \"ERROR: playlist is empty (no *.mp4 in ${INPUT_DIR})\""
    ∷ text "  exit 3"
    ∷ text "fi"
    ∷ text ""
    ∷ text "exec ffmpeg -hide_banner -loglevel info -nostdin -re \\"
    ∷ text "  -f concat -safe 0 -stream_loop -1 -i \"$PLAYLIST\" \\"
    ∷ text "  -fflags +genpts -avoid_negative_ts make_zero \\"
    ∷ text "  -c:v copy -c:a copy \\"
    ∷ text "  -t \"$RUNTIME_MAX\" \\"
    ∷ text "  -f flv \"$RTMP_URL\""
    ∷ [])

module _ (stream_name stream_key input_dir rtmp_host : Text) (runtime_max : ℕ) where
  unfoldable pub render_env_file : Text
  render_env_file = lines (
      (text "STREAM_NAME=" ++ stream_name)
      ∷ (text "STREAM_KEY=" ++ stream_key)
      ∷ (text "INPUT_DIR=" ++ input_dir)
      ∷ (text "RTMP_HOST=" ++ rtmp_host)
      ∷ (text "RUNTIME_MAX=" ++ decimal runtime_max)
      ∷ [])

module _ (stream_name workdir env_file runner_path : Text) where
  unfoldable pub render_systemd_unit : Text
  render_systemd_unit = lines (
      text "[Unit]"
      ∷ (text "Description=YouTube Stream: " ++ stream_name)
      ∷ text "After=network-online.target"
      ∷ text "Wants=network-online.target"
      ∷ text ""
      ∷ text "[Service]"
      ∷ text "Type=simple"
      ∷ (text "WorkingDirectory=" ++ workdir)
      ∷ (text "EnvironmentFile=" ++ env_file)
      ∷ text ""
      ∷ (text "ExecStart=/usr/bin/env bash " ++ runner_path)
      ∷ text ""
      ∷ text "# systemd керує перезапуском тільки якщо впав"
      ∷ text "Restart=on-failure"
      ∷ text "RestartSec=5"
      ∷ text ""
      ∷ text "KillSignal=SIGINT"
      ∷ text "KillMode=control-group"
      ∷ text "TimeoutStopSec=60"
      ∷ text "SuccessExitStatus=0 130 255"
      ∷ text ""
      ∷ text "StandardOutput=journal"
      ∷ text "StandardError=journal"
      ∷ text ""
      ∷ text "[Install]"
      ∷ text "WantedBy=multi-user.target"
      ∷ [])
