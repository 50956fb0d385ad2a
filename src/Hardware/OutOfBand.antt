-- ===== src/Hardware/OutOfBand.antt =====
-- pkg/hardware/object.go: the status of the Hardware, which holds what the BMC reports of the machine.
use actions.Prelude.{ℕ, List, Option}
use actions.Text.{Text}

-- CPUSocket
pub record CpuSocket : Type 0 where
  pub slot : Text
  pub vendor : Text
  pub model : Text

-- GPUDevice
pub record GpuDevice : Type 0 where
  pub vendor : Text
  pub model : Text
  pub description : Text

-- BlockDevice; the size is an int64, kept modulo 2^64.
pub record BlockDevice : Type 0 where
  pub name : Text
  pub controller_type : Text
  pub drive_type : Text
  pub vendor : Text
  pub model : Text
  pub serial_number : Text
  pub wwn : Text
  pub size_bytes : ℕ

-- Inventory; `cpu` is the sockets of its CPU, none where it is nil.
pub record Inventory : Type 0 where
  pub collection_method : Text
  pub cpu : Option (List CpuSocket)
  pub gpu_devices : List GpuDevice
  pub block_devices : List BlockDevice

-- Attributes
pub record Attributes : Type 0 where
  pub out_of_band : Option Inventory

-- Status
pub record Status : Type 0 where
  pub attributes : Option Attributes
