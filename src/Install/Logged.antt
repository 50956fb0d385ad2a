-- ===== src/Install/Logged.antt =====
-- talos2disk/run.go: logPlan, as the lines that it logs.
use actions.Prelude.{Bool, not, List, [], ◌∷◌, if◌then◌else◌}
use actions.Text.{Text, codes, text_eq}
use actions.Disks.Selector.{Selector}
use actions.Install.{Inputs, DiskChoice, by_selector, by_path}
use actions.Install.Planned.{Plan}
use actions.Install.Unknown.{disk_paths}

-- The values of slog attributes.
pub data Value : Type 0 where
  one : Text → Value
  many : List Text → Value
  flag : Bool → Value

pub record Line : Type 0 where
  pub message : Text
  pub attributes : List (Text × Value)

-- Selector.String
unfoldable pub selector_text : Selector → Text
selector_text s = if text_eq s.raw [] then codes "{}" else s.raw

-- The fields of DiskChoice: the document of the selector, empty for none, the path, and the source.
unfoldable pub choice_selector : DiskChoice → Text
unfolding selector_text
choice_selector (by_selector sel source) = selector_text sel
choice_selector (by_path path source) = []

unfoldable pub choice_path : DiskChoice → Text
choice_path (by_selector sel source) = []
choice_path (by_path path source) = path

unfoldable pub choice_source : DiskChoice → Text
choice_source (by_selector sel source) = source
choice_source (by_path path source) = source

-- logPlan
unfoldable pub log_plan : Inputs → Plan → List Line
unfolding choice_selector choice_path choice_source disk_paths
log_plan in_ p =
    record {
      message = codes "Plan: install disk";
      attributes =
          (codes "device", one p.disk.dev_path)
          ∷ (codes "source", one (choice_source p.settings.disk))
          ∷ (codes "selector", one (choice_selector p.settings.disk))
          ∷ (codes "path", one (choice_path p.settings.disk))
          ∷ (codes "candidates", many (disk_paths p.candidates))
          ∷ [];
    }
    ∷ record {
      message = codes "Plan: schematic";
      attributes =
          (codes "id", one p.schematic_id)
          ∷ (codes "source", one p.settings.schematic.1)
          ∷ (codes "factory", one p.settings.factory_url.0)
          ∷ (codes "factorySource", one p.settings.factory_url.1)
          ∷ [];
    }
    ∷ record {
      message = codes "Plan: version";
      attributes =
          (codes "version", one p.version)
          ∷ (codes "source", one p.settings.version.1)
          ∷ (codes "image", one p.image)
          ∷ [];
    }
    ∷ record {
      message = codes "Plan: kernel arguments";
      attributes =
          (codes "args", one p.kernel_args)
          ∷ (
            codes "linkNaming",
            one (if p.kernel_names then codes "kernel" else codes "predictable"),
          )
          ∷ [];
    }
    ∷ record {
      message = codes "Plan: META network configuration";
      attributes =
          (codes "write", flag (not (text_eq p.network_doc [])))
          ∷ (codes "verbatim", flag (not (text_eq in_.network_config [])))
          ∷ [];
    }
    ∷ []
