-- ===== src/Install/Wired.antt =====
-- talos2disk/deps.go and main.go: the production surroundings, put together from the other packages,
-- and the exit code. The host gives what these packages ask of the kernel, of the network and of other
-- libraries.
use actions.Prelude.{ℕ, Bool, not, List, [], Option, none, some, Result, ok, err}
use actions.Text.{Text, codes}
use actions.Text.Paths.{clean_path, join_path}
use actions.Uki.{Bytes}
use actions.Http.{Transport}
use actions.Naming.Pci.{Sysfs}
use actions.Naming.{interface_name}
use actions.Disks.Prober.{Device, probe_device}
use actions.Factory.Client.{ParsedUrl, new_client, client_versions}
use actions.Net.{Config}
use actions.Net.Mapping.{Netip}
use actions.Install.{Inputs}
use actions.Install.Planned.{Deps}
use actions.Install.Run.{Trace}

pub record Host : Type 1 where
  pub sys : Sysfs
  pub open_device : Text → Option Device
  pub eval_symlinks : Text → Option Text
  pub glob : Text → Text → Bool
  pub parse_url : Text → Option ParsedUrl
  pub http : Transport
  pub decode_versions : Bytes → Option (List Text)
  pub net : Netip
  pub marshal : Config → Result Text
  pub arch : Text

abbrev pub to_option {ℓ} : {A : Type ℓ} → Result A → Option A
to_option (err e) = none
to_option (ok a) = some a

-- defaultDeps, with what buildPlan calls of the packages.
unfoldable pub default_deps : Host → Deps
unfolding probe_device new_client client_versions interface_name join_path clean_path
default_deps host = record {
  entries = host.sys.read_dir (join_path (clean_path (codes "/sys")) (codes "block"));
  dev_root = codes "/dev";
  probe = probe_device host.open_device;
  eval_symlinks = host.eval_symlinks;
  glob = host.glob;
  base_url = λ url. to_option (new_client host.parse_url url);
  versions = client_versions host.http host.decode_versions;
  namer = λ kernel_names mac.
      interface_name host.sys (record { root = []; predictable = not kernel_names }) mac;
  net = host.net;
  marshal = host.marshal;
  arch = host.arch;
}

unfoldable pub exit_code : Result (Unit {0}) → ℕ
exit_code (err e) = 1
exit_code (ok u) = 0

-- realMain: the exit code, with what inputsFromEnv returns.
unfoldable pub real_main : {S : Type 0} → Result Inputs → (Inputs → Trace S) → ℕ
unfolding exit_code
real_main (err e) run = 1
real_main (ok in_) run = exit_code (run in_).result
