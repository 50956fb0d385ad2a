-- ===== src/Install/Environment.antt =====
-- talos2disk/inputs.go: the inputs from the environment. `env` is os.Getenv, empty where a variable is
-- not set.
use actions.Prelude.{
  ℕ, ◌*◌, ◌%◌, ◌^◌, Bool, not, ◌&&◌, List, [], ◌∷◌, none, some, Result, ok, err, ◌>>=◌, ◌>>◌, guard,
  bad_retry_minutes, bad_link_naming, ◌==◌, if◌then◌else◌,
}
use actions.Text.{Text, codes, trim_space, has_member}
use actions.Text.Numbers.{atoi}
use actions.Install.{Inputs}

-- strconv.ParseBool, with false for what it cannot read.
unfoldable pub parse_bool : Text → Bool
unfolding has_member
parse_bool s =
    has_member (codes "1" ∷ codes "t" ∷ codes "T" ∷ codes "true" ∷ codes "TRUE" ∷ codes "True" ∷ [])
      s

-- The minutes of RETRY_DURATION_MINUTES, ten where it is blank.
unfoldable pub retry_minutes : Text → Result ℕ
retry_minutes [] = ok 10
retry_minutes (c ∷ s) = elim (atoi (c ∷ s)) [
  | none ↦ err bad_retry_minutes
  | some (negative, n) ↦ if negative && not (n == 0) then err bad_retry_minutes else ok n
]

-- time.Duration(minutes) * time.Minute
abbrev pub minutes_window : ℕ → ℕ
minutes_window minutes = (minutes * 60000000000) % 2 ^ 64

abbrev pub link_namings : List Text
link_namings = [] ∷ codes "kernel" ∷ codes "predictable" ∷ []

-- inputsFromEnv
unfoldable pub inputs_from_env : (Text → Text) → Result Inputs
unfolding has_member
inputs_from_env env = do
  minutes ← retry_minutes (trim_space (env (codes "RETRY_DURATION_MINUTES")))
  guard (has_member link_namings (trim_space (env (codes "LINK_NAMING")))) bad_link_naming
  ok (record {
    hardware = env (codes "HARDWARE");
    schematic_id = trim_space (env (codes "SCHEMATIC_ID"));
    talos_version = trim_space (env (codes "TALOS_VERSION"));
    disk_selector = trim_space (env (codes "DISK_SELECTOR"));
    kernel_args = trim_space (env (codes "KERNEL_ARGS"));
    factory_url = trim_space (env (codes "FACTORY_URL"));
    network_config = env (codes "NETWORK_CONFIG");
    link_naming = trim_space (env (codes "LINK_NAMING"));
    strip_signature = parse_bool (env (codes "STRIP_SIGNATURE"));
    retry_window = minutes_window minutes;
    dry_run = parse_bool (env (codes "DRY_RUN"));
  })
