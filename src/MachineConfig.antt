-- ===== src/MachineConfig.antt =====
-- pkg/talosconfig/config.go: the machine configuration in the user data. The YAML decoder is a
-- parameter: the documents of the text in order, each decoded or an error.
use actions.Prelude.{
  Bool, true, false, not, ◌||◌, List, [], ◌∷◌, Option, none, some, Result, ok, err, ◌>>=◌, bad_yaml,
  bad_encoding, if◌then◌else◌, ◌==◌,
}
use actions.Text.{Text, codes, text_eq, cut, trim_space, has_prefix}
use actions.Factory.{is_full_version, is_bare_minor}

-- Config with its parts Install, Network and Time. A selector that is absent is empty.
pub record MachineConfig : Type 0 where
  pub found : Bool
  pub disk : Text
  pub disk_selector : Text
  pub image : Text
  pub extra_kernel_args : List Text
  pub hostname : Text
  pub nameservers : List Text
  pub servers : List Text

-- machine.install of a document; the selector is none where it is absent, and else its encoding, none
-- where it cannot be encoded.
pub record InstallDocument : Type 0 where
  pub disk : Text
  pub selector : Option (Option Text)
  pub image : Text
  pub extra_kernel_args : List Text

-- machine of a document.
pub record MachineDocument : Type 0 where
  pub install : Option InstallDocument
  pub network : Option (Text × List Text)
  pub time : Option (List Text)

-- document
pub record YamlDocument : Type 0 where
  pub version : Text
  pub machine : Option MachineDocument

abbrev pub empty_config : MachineConfig
empty_config = record {
  found = false;
  disk = [];
  disk_selector = [];
  image = [];
  extra_kernel_args = [];
  hostname = [];
  nameservers = [];
  servers = [];
}

unfoldable pub selector_of : Option (Option Text) → Result Text
selector_of none = ok []
selector_of (some none) = err bad_encoding
selector_of (some (some text)) = ok (trim_space text)

unfoldable pub with_install : MachineConfig → Option InstallDocument → Result MachineConfig
with_install cfg none = ok cfg
with_install cfg (some i) = do
  selector ← selector_of i.selector
  ok (record cfg {
    disk = trim_space i.disk;
    image = trim_space i.image;
    extra_kernel_args = i.extra_kernel_args;
    disk_selector = selector;
  })

unfoldable pub with_network : MachineConfig → Option (Text × List Text) → MachineConfig
with_network cfg none = cfg
with_network cfg (some (hostname, nameservers)) = record cfg {
  hostname = trim_space hostname;
  nameservers = nameservers;
}

unfoldable pub with_time : MachineConfig → Option (List Text) → MachineConfig
with_time cfg none = cfg
with_time cfg (some servers) = record cfg { servers = servers }

-- The configuration of the document that the loop stops at.
unfoldable pub config_of_machine : MachineDocument → Result MachineConfig
config_of_machine m = do
  cfg ← with_install (record empty_config { found = true }) m.install
  ok (with_time (with_network cfg m.network) m.time)

-- The loop of Parse.
unfoldable pub find_machine : List (Result YamlDocument) → Result MachineConfig
find_machine [] = ok empty_config
find_machine (err e ∷ docs) = err bad_yaml
find_machine (ok doc ∷ docs) = elim doc.machine [
  | none ↦ find_machine docs
  | some m ↦
      let rest = find_machine docs in
      if not (text_eq doc.version (codes "v1alpha1")) then rest else config_of_machine m
]

-- Parse
unfoldable pub parse_config :
    (Text → List (Result YamlDocument)) → Text → Result (Option MachineConfig)
parse_config decode user_data =
    if text_eq (trim_space user_data) []
    then ok none
    else (find_machine (decode user_data) >>= λ cfg. ok (some cfg))

-- InstallDiskPath
unfoldable pub install_disk_path : Option MachineConfig → Text
unfolding has_prefix
install_disk_path none = []
install_disk_path (some c) = if not (has_prefix c.disk (codes "/dev/")) then [] else c.disk

-- What follows the last slash of a text after what has been read since a slash.
unfoldable pub after_slash : Text → Text → Text
after_slash seen [] = seen
after_slash seen (c ∷ s) =
    let reset = after_slash s s in
    let same = after_slash seen s in if c == b'/' then reset else same

-- talosVersionTag
unfoldable pub is_version_tag : Text → Bool
is_version_tag tag = is_full_version tag || is_bare_minor tag

-- ImageTag; of an empty image the tag is empty in any case.
unfoldable pub image_tag : Option MachineConfig → Text
unfolding after_slash is_version_tag
image_tag none = []
image_tag (some c) =
    let ref = (cut b'@' c.image).before in
    let name = after_slash ref ref in
    let at = cut b':' name in if not at.found || not (is_version_tag at.after) then [] else at.after
