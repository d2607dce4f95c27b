-- ===== src/Miner/Config.antt =====
-- miner_create_with_backend_options of miner.c and the configuration records of miner.h. An `int`
-- that selects a variant is a `Variant`: negative, or a number.
use btcrig.Base.{ℕ, Bool, true, false, Option, none, some, [], ltb, ◌==◌, if◌then◌else◌, replicate}
use btcrig.ShareQueue.{empty}
use btcrig.Miner.{ActiveJob, Miner}

pub data Variant : Type 0 where
  negative : Variant
  variant : ℕ → Variant

-- The part of `miner_opencl_config_t` and of `miner_opencl_device_config_t` that the devices
-- share, and the rest of the former.
pub record OpenclConfig : Type 0 where
  pub enabled : Bool
  pub all_devices : Bool
  pub platform : ℕ
  pub device : ℕ
  pub batch_size : ℕ
  pub local_work_size : ℕ
  pub nonces_per_work_item : ℕ
  pub max_results : ℕ
  pub backend_variant : Variant
  pub kernel_variant : Variant
  pub device_count : ℕ

pub record OpenclDevice : Type 0 where
  pub platform : ℕ
  pub device : ℕ
  pub batch_size : ℕ
  pub local_work_size : ℕ
  pub nonces_per_work_item : ℕ
  pub max_results : ℕ
  pub backend_variant : Variant
  pub kernel_variant : Variant

pub record CudaConfig : Type 0 where
  pub enabled : Bool
  pub device : ℕ
  pub batch_size : ℕ
  pub threads_per_block : ℕ
  pub nonces_per_thread : ℕ
  pub max_results : ℕ
  pub kernel_variant : Variant

-- `miner_opencl_config_defaults`
unfoldable pub opencl_config_defaults : OpenclConfig
opencl_config_defaults = record {
  enabled = false;
  all_devices = true;
  platform = 0;
  device = 0;
  batch_size = 1048576;
  local_work_size = 0;
  nonces_per_work_item = 1;
  max_results = 256;
  backend_variant = variant 0;
  kernel_variant = variant 0;
  device_count = 0;
}

-- A zero stands for the default.
unfoldable pub or_default : ℕ → ℕ → ℕ
or_default n default = if n == 0 then default else n

-- A variant outside 0 to `last` becomes `fallback`.
unfoldable pub checked_variant : ℕ → ℕ → Variant → Variant
checked_variant last fallback negative = variant fallback
checked_variant last fallback (variant n) = if ltb last n then variant fallback else variant n

-- The checks on a given OpenCL configuration: batch size 2^20, 1 nonce per work item, 256
-- results, back ends 0 to 2, kernels 0 to 6.
unfoldable pub checked_opencl_config : OpenclConfig → OpenclConfig
unfolding or_default checked_variant
checked_opencl_config c = record c {
  batch_size = or_default c.batch_size 1048576;
  nonces_per_work_item = or_default c.nonces_per_work_item 1;
  max_results = or_default c.max_results 256;
  backend_variant = checked_variant 2 0 c.backend_variant;
  kernel_variant = checked_variant 6 0 c.kernel_variant;
}

-- Those on a CUDA configuration: batch size 2^22, 256 threads per block, 1 nonce per thread, 256
-- results, kernels 0 to 8.
unfoldable pub checked_cuda_config : CudaConfig → CudaConfig
unfolding or_default checked_variant
checked_cuda_config c = record c {
  batch_size = or_default c.batch_size 4194304;
  threads_per_block = or_default c.threads_per_block 256;
  nonces_per_thread = or_default c.nonces_per_thread 1;
  max_results = or_default c.max_results 256;
  kernel_variant = checked_variant 8 0 c.kernel_variant;
}

-- A configuration pointer that is NULL leaves the defaults.
unfoldable pub chosen_opencl_config : Option OpenclConfig → OpenclConfig
unfolding opencl_config_defaults checked_opencl_config
chosen_opencl_config none = opencl_config_defaults
chosen_opencl_config (some c) = checked_opencl_config c

-- The choice of one field of `opencl_device_to_config`: a device's zero takes the base's value.
unfoldable pub device_or_base : ℕ → ℕ → ℕ
device_or_base device base = if device == 0 then base else device

unfoldable pub device_or_base_variant : Variant → Variant → Variant
device_or_base_variant negative base = negative
device_or_base_variant (variant n) base = if n == 0 then base else variant n

unfoldable pub opencl_device_to_config : Option OpenclConfig → Option OpenclDevice → OpenclConfig
unfolding opencl_config_defaults device_or_base device_or_base_variant
opencl_device_to_config base device =
    let from : OpenclConfig = elim base [ none ↦ opencl_config_defaults | some c ↦ c ] in
    let out = record from { enabled = true; all_devices = false; device_count = 0 } in
    elim device [
      | none ↦ out
      | some d ↦ record out {
        platform = d.platform;
        device = d.device;
        batch_size = device_or_base d.batch_size out.batch_size;
        local_work_size = device_or_base d.local_work_size out.local_work_size;
        nonces_per_work_item = device_or_base d.nonces_per_work_item out.nonces_per_work_item;
        max_results = device_or_base d.max_results out.max_results;
        backend_variant = device_or_base_variant d.backend_variant out.backend_variant;
        kernel_variant = device_or_base_variant d.kernel_variant out.kernel_variant;
      }
    ]

-- The zeroed miner of `miner_create_with_backend_options` when both allocations succeed; a
-- negative number of threads is 0 before. `zeroed` is the zeroed job.
unfoldable pub create : {M D : Type 0} → ActiveJob M → ℕ → Miner M D
create zeroed thread_count = record {
  thread_count = thread_count;
  opencl_devices = [];
  opencl_hashes = [];
  cuda_device = false;
  cuda_hashes = 0;
  started = false;
  opencl_started = 0;
  cuda_started = 0;
  stop = false;
  paused = false;
  pause_epoch = 0;
  job = zeroed;
  next_nonce = 0;
  nonce_exhausted = false;
  hashes = 0;
  thread_hashes = replicate thread_count 0;
  queue = empty;
}
