-- ===== src/Partition/Node.antt =====
-- pkg/partition/node.go: EnsureNode, on a clock in nanoseconds that only the looks at the node and the
-- sleeps move. What the machine answers is the record `Machine`; the calls that EnsureNode makes to
-- change it are kept in order.
use actions.Prelude.{
  ℕ, zero, suc, ◌+◌, Bool, true, false, not, List, [], ◌∷◌, Option, none, some, Result, ok, err,
  ◌>>=◌, ◌>>◌, guard, or_err, ltb, dev_unreadable, bad_dev_numbers, bad_major, bad_minor,
  mkdir_failed, if◌then◌else◌,
}
use actions.Text.{Text, codes, text_eq, trim_space, cut}
use actions.Text.Numbers.{parse_uint}
use actions.Text.Paths.{FilePath, clean_path, join_path, path_text}
use actions.Partition.{base_name, device}

-- NodeOptions, less Mknod. A negative duration takes the default, as zero does.
pub record NodeOptions : Type 0 where
  pub sys_root : Text
  pub wait : ℕ
  pub poll : ℕ
  pub private_dir : Text

abbrev pub text_or : Text → Text → Text
text_or t default = if text_eq t [] then default else t

abbrev pub duration_or : ℕ → ℕ → ℕ
duration_or zero default = default
duration_or (suc n) default = suc n

-- The options with their defaults.
abbrev pub with_defaults : NodeOptions → NodeOptions
with_defaults opts = record {
  sys_root = text_or opts.sys_root (codes "/sys");
  wait = duration_or opts.wait 10000000000;
  poll = duration_or opts.poll 200000000;
  private_dir = text_or opts.private_dir (codes "/run/partition-nodes");
}

-- os.Stat at a time, how long round k takes until its look at the node, from there until the clock is
-- read, and by how much its sleep is longer than asked for; filepath.EvalSymlinks, os.ReadFile, os.MkdirAll, and the Mknod of the options or MknodBlock.
pub record Machine : Type 0 where
  pub there : Text → ℕ → Bool
  pub look : ℕ → ℕ
  pub lag : ℕ → ℕ
  pub overslept : ℕ → ℕ
  pub eval_symlinks : Text → Option Text
  pub read_file : FilePath → Option Text
  pub mkdir_all : Text → Bool
  pub mknod : FilePath → ℕ → ℕ → Result (Unit {0})

module _ (m : Machine) (node : Text) (deadline poll : ℕ) where
  -- What follows a look, with the time that the clock shows then, and whether the node was seen.
  unfoldable pub after_look : ℕ → Bool → Option Bool → Option Bool
  after_look now true rest = some true
  after_look now false rest = if ltb deadline now then some false else rest

  -- The loop from round k on; none where the fuel is used up.
  unfoldable pub wait_from : ℕ → ℕ → ℕ → Option Bool
  unfolding after_look
  wait_from zero now k = none
  wait_from (suc fuel) now k =
      let looked = now + m.look k in
      let clock = looked + m.lag k in
      after_look clock (m.there node looked)
        (wait_from fuel (clock + (poll + m.overslept k)) (k + 1))

-- The calls that EnsureNode makes to change the machine, whether they succeed or not.
pub data Call : Type 0 where
  call_mkdir : Text → Call
  call_remove : FilePath → Call
  call_mknod : FilePath → ℕ → ℕ → Call

pub record Ensured : Type 0 where
  pub result : Result Text
  pub calls : List Call

-- The disk behind its links.
unfoldable pub resolved_disk : Option Text → Text → Text
resolved_disk none disk = disk
resolved_disk (some r) disk = r

-- The file in sysfs with the numbers of a partition.
unfoldable pub dev_file : Text → Text → Text → FilePath
unfolding join_path clean_path
dev_file sys_root disk_name part_name =
    join_path
      (join_path (join_path (join_path (clean_path sys_root) (codes "block")) disk_name) part_name)
      (codes "dev")

-- "major:minor"
unfoldable pub parse_numbers : Text → Result (ℕ × ℕ)
unfolding cut parse_uint
parse_numbers text = do
  guard (cut b':' text).found bad_dev_numbers
  major ← or_err (parse_uint 32 (cut b':' text).before) bad_major
  minor ← or_err (parse_uint 32 (cut b':' text).after) bad_minor
  ok (major, minor)

-- The numbers that sysfs has for a partition.
unfoldable pub read_numbers : Machine → Text → Text → Text → Result (ℕ × ℕ)
unfolding parse_numbers dev_file
read_numbers m sys_root disk_name part_name = do
  raw ← or_err (m.read_file (dev_file sys_root disk_name part_name)) dev_unreadable
  parse_numbers (trim_space raw)

abbrev node_result : Result (Unit {0}) → Text → Result Text
node_result made path = made >>= (λ u. ok path)

-- The private node, once the numbers are read.
unfoldable pub make_private : Machine → Text → Text → Result (ℕ × ℕ) → Ensured
unfolding join_path clean_path path_text
make_private m dir part_name (err e) = record { result = err e; calls = [] }
make_private m dir part_name (ok (major, minor)) =
    let path = join_path (clean_path dir) part_name in
    if not (m.mkdir_all dir)
    then record { result = err mkdir_failed; calls = call_mkdir dir ∷ [] }
    else record {
      result = node_result (m.mknod path major minor) (path_text path);
      calls = call_mkdir dir ∷ call_remove path ∷ call_mknod path major minor ∷ [];
    }

-- What follows the wait.
unfoldable pub after_wait : Machine → NodeOptions → Text → ℕ → Bool → Ensured
unfolding make_private read_numbers
after_wait m opts disk index true = record { result = ok (device disk index); calls = [] }
after_wait m opts disk index false =
    let resolved = resolved_disk (m.eval_symlinks disk) disk in
    let part_name = base_name (device resolved index) in
    make_private m opts.private_dir part_name
      (read_numbers m opts.sys_root (base_name resolved) part_name)

abbrev pub and_then {ℓ κ} : {A : Type ℓ} {B : Type κ} → Option A → (A → B) → Option B
and_then none f = none
and_then (some a) f = some (f a)

-- EnsureNode at a time. Every round but the last sleeps for at least a nanosecond until the deadline,
-- so two more rounds than the nanoseconds of the wait are enough.
unfoldable pub ensure_node_at : Machine → ℕ → Text → ℕ → NodeOptions → Option Ensured
unfolding wait_from after_wait
ensure_node_at m now disk index options =
    let opts = with_defaults options in
    and_then (wait_from m (device disk index) (now + opts.wait) opts.poll (opts.wait + 2) now 0)
      (after_wait m opts disk index)
