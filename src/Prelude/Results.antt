-- ===== src/Prelude/Results.antt =====
-- Go's pair of a value and an error is a value or an error.
use mathlib.Core.Path.{◌≡◌, refl}
use mathlib.Core.Logic.{◌⊎◌, inl, inr}
use mathlib.Core.Bool.{Bool, true, false}
use mathlib.Core.Option.{Option, none, some}

-- One constructor for each message; a wrapped error is its cause.
pub data Error : Type 0 where
  -- A run-time panic: an index or a slice out of range.
  panic : Error
  -- Files: opening, and the steps of writing a file.
  no_such_file create_failed write_failed sync_failed close_failed rename_failed : Error
  -- pkg/uki
  bad_pe not_pe32_plus short_read no_cmdline_section table_overlap not_before not_after : Error
  address_overlap not_plain_data bad_alignment cmdline_count signed : Error
  -- pkg/cmdline
  no_kernel_args escaping_pattern bad_pattern no_match mount_failed : Error
  -- pkg/disks
  bad_size_condition bad_size bad_selector selector_on_name unknown_disk_type no_disk_matches :
      Error
  not_eligible no_such_disk no_block_dir probe_failed : Error
  size_failed properties_failed readonly_failed : Error
  -- pkg/factory
  not_a_version no_released_patch : Error
  -- pkg/talosnet
  empty_netmask prefix_out_of_range bad_netmask wrong_family not_contiguous : Error
  no_link_name no_net_dir no_such_interface bad_address bad_vlan bad_gateway bad_route
        no_static_address :
      Error
  -- talos2disk
  meta_too_small bad_adv not_serialized does_not_fit short_write : Error
  no_disk bad_yaml bad_encoding bad_network_config no_hardware bad_hardware bad_factory_url : Error
  marshal_failed : Error
  -- pkg/partition
  no_table not_gpt no_partition : Error
  dev_unreadable bad_dev_numbers bad_major bad_minor mkdir_failed : Error
  -- pkg/image; the last is for a context that is done.
  bad_url download_failed image_not_found bad_status open_failed bad_zstd read_failed : Error
  -- pkg/hardware and pkg/factory: what a server answers.
  bad_json empty_document : Error
  cancelled : Error
  bad_schematic no_schematic no_version bad_retry_minutes bad_link_naming : Error

pub data Result {ℓ} (V : Type ℓ) : Type ℓ where
  err : Error → Result V
  ok : V → Result V

pub Result-cases {ℓ} :
    {V : Type ℓ} (r : Result V) → ((v : V) × (r ≡ ok v)) ⊎ ((e : Error) × (r ≡ err e))
Result-cases (err e) = inr (e, refl)
Result-cases (ok v) = inl (v, refl)

pub ok-injective {ℓ} : {V : Type ℓ} {v w : V} → ok v ≡ ok w → v ≡ w
ok-injective same = cc

-- A result that Go returns as `(value, ok)` and a caller turns into an error.
abbrev pub or_err {ℓ} : {V : Type ℓ} → Option V → Error → Result V
or_err (some v) e = ok v
or_err none e = err e

-- `if !test { return err }`
abbrev pub guard : Bool → Error → Result (Unit {0})
guard false e = err e
guard true e = ok tt

-- What follows a call, once the error has been checked.
infixl 5 ◌>>=◌ ◌>>◌
abbrev pub ◌>>=◌ {ℓ κ} : {V : Type ℓ} {W : Type κ} → Result V → (V → Result W) → Result W
err e >>= next = err e
ok v >>= next = next v

abbrev pub ◌>>◌ {ℓ} : {W : Type ℓ} → Result (Unit {0}) → Result W → Result W
check >> next = check >>= λ done. next

-- The parts of calls in a row of which the last returned a value: for chains of several steps.
pub on_ok {ℓ κ μ} :
    {V : Type ℓ} {W : Type κ} {P : Type μ} (m : Result V) (next : V → Result W) {w : W}
    → (m >>= next) ≡ ok w
    → ((v : V) → m ≡ ok v → next v ≡ ok w → P)
    → P
on_ok (err e) next h k = cc
on_ok (ok v) next h k = k v refl h

pub >>=-ok {ℓ κ} :
    {V : Type ℓ} {W : Type κ} (m : Result V) (next : V → Result W) {w : W}
    → (m >>= next) ≡ ok w
    → (v : V) × (m ≡ ok v) × (next v ≡ ok w)
>>=-ok m next h = on_ok m next h (λ v first rest. (v, first, rest))

pub or_err-ok {ℓ} : {V : Type ℓ} (o : Option V) (e : Error) (v : V) → or_err o e ≡ ok v → o ≡ some v
or_err-ok none e v h = cc
or_err-ok (some w) e v h = cc

pub guard-ok : (test : Bool) (e : Error) (u : Unit {0}) → guard test e ≡ ok u → test ≡ true
guard-ok true e u h = refl
guard-ok false e u h = cc
