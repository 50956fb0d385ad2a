-- ===== src/Disks/Prober.antt =====
-- pkg/disks/prober.go: Probe. The device that go-blockdevice opens is a record with what its methods
-- answer, none for an error.
use actions.Prelude.{
  ℕ, Bool, [], Option, Result, ok, ◌>>=◌, or_err, open_failed, size_failed, properties_failed,
  readonly_failed,
}
use actions.Text.{Text}
use actions.Disks.{Disk}

-- block.DeviceProperties
pub record Properties : Type 0 where
  pub transport : Text
  pub rotational : Bool
  pub model : Text
  pub serial : Text
  pub modalias : Text
  pub uuid : Text
  pub wwid : Text
  pub bus_path : Text

-- block.Device
pub record Device : Type 0 where
  pub size : Option ℕ
  pub properties : Option Properties
  pub readonly : Option Bool
  pub is_cd : Bool

-- BlockdeviceProber.Probe: the name is left to Enumerate.
unfoldable pub probe_device : (Text → Option Device) → Text → Result Disk
probe_device open_device dev_path = do
  dev ← or_err (open_device dev_path) open_failed
  size ← or_err dev.size size_failed
  props ← or_err dev.properties properties_failed
  readonly ← or_err dev.readonly readonly_failed
  ok (record {
    name = [];
    dev_path = dev_path;
    size = size;
    transport = props.transport;
    rotational = props.rotational;
    readonly = readonly;
    cdrom = dev.is_cd;
    model = props.model;
    serial = props.serial;
    modalias = props.modalias;
    uuid = props.uuid;
    wwid = props.wwid;
    bus_path = props.bus_path;
  })
